-- ===== src/Tests/Hosts.antt =====
-- Host names.
use utp.Base.{ℕ, ◌≡◌, ◌↔◌, true, [], ◌∷◌}
use utp.Base.Texts.{Text}
use utp.Host.{is_ipv4}
use utp.Host.Ipv4.{dotted, AreBytes, is_ipv4_iff}

-- 10.0.0.7
abbrev lan : Text
lan = b'1' ∷ b'0' ∷ b'.' ∷ b'0' ∷ b'.' ∷ b'0' ∷ b'.' ∷ b'7' ∷ []

is_ipv4_iff_example :
    (is_ipv4 lan ≡ true) ↔ ((bytes : ℕ × ℕ × ℕ × ℕ) × AreBytes bytes × (lan ≡ dotted bytes))
is_ipv4_iff_example = is_ipv4_iff lan

-- a-b.io
abbrev site : Text
site = b'a' ∷ b'-' ∷ b'b' ∷ b'.' ∷ b'i' ∷ b'o' ∷ []
