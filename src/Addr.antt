-- ===== src/Addr.antt =====
-- src/utp_addr.ts: an address, as the connections carry it; `Create` has the constructor and its checks.
pub mod Create
use Prim.Native.Nat.{ℕ}
use Prim.Native.String.{String}
use mathlib.Core.Bool.{Bool, ◌&&◌}
use text.Mathlib.Text.{◌==◌ as str_eq}
use utp.Base.{◌==◌}

pub record Addr : Type 0 where
  pub port : ℕ
  pub hostname : String

-- `equals`
unfoldable pub equals : Addr → Addr → Bool
equals a b = a.port == b.port && str_eq a.hostname b.hostname
