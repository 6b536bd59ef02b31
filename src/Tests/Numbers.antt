-- ===== src/Tests/Numbers.antt =====
-- Sequence numbers near the wrap from 65535 to 0.
use utp.Base.{◌≡◌, refl, true, false, arith}
use utp.Seq.{ℤ, add, lt, ge}
use utp.Seq.Order.{offsets_ordered}

-- A step forward over the end of the range.
add_wraps : add 65535 (ℤ.pos 1) ≡ 0
unfolding add
add_wraps = refl

add_back : add 0 (ℤ.negsuc 0) ≡ 65535
unfolding add
add_back = refl

offsets_ordered_example :
    (lt (add 65534 (ℤ.pos 1)) (add 65534 (ℤ.pos 3)) ≡ true)
    × (ge (add 65534 (ℤ.pos 1)) (add 65534 (ℤ.pos 3)) ≡ false)
offsets_ordered_example = offsets_ordered 65534 1 3 (omega arith) (omega arith)
