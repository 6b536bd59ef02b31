-- ===== src/SendWindow/Ack.antt =====
-- Which packets an acknowledgement takes out of the window.
use utp.Base.{ℕ, Option, none, some, max}
use utp.Base.Map
use utp.Base.Map.{Map, HasDistinctKeys, nat_key}
use utp.Seq
use utp.Seq.{ℤ, add}
use utp.Packet.{Packet}
use utp.BlockingMap
use utp.BlockingMap.{BlockingMap, resolve_from, delete}
use utp.SendWindow.{SendWindow}

-- the number at an offset from a base
abbrev pub number : ℕ → ℕ → ℕ
number base i = add base (ℤ.pos i)

abbrev pub number_of : ℕ → Option ℕ → Option ℕ
number_of base none = none
number_of base (some i) = some (number base i)

-- the higher one of an offset that was noted before, if any, and another
abbrev pub highest : Option ℕ → ℕ → ℕ
highest none a = a
highest (some l) a = max l a
