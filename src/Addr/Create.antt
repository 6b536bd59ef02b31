-- ===== src/Addr/Create.antt =====
-- src/utp_addr.ts: how an address is made, and its hash. A port is an integer.
use Prim.Native.String.{String}
use utp.Base.{◌++◌, ℕ, ◌+◌, ◌-◌, ◌*◌, ◌^◌, Option, none, some, ltb, leb, if◌then◌else◌}
use utp.Addr.{Addr}
use utp.Base.Texts.{Text, codes}
use utp.Host.{decimal, is_valid_hostname, hash_code, code_units}

-- the integers over the native numbers: `negsuc n` is -(n + 1)
pub data ℤ : Type 0 where
  pos negsuc : ℕ → ℤ

-- `new UtpAddr`: `none` is the error
unfoldable pub create : ℤ → String → Option Addr
create (negsuc _) hostname = none
create (pos port) hostname =
    if ltb 65535 port
    then none
    else (if is_valid_hostname (code_units hostname)
        then some (record { port = port; hostname = hostname })
        else none)

-- the addresses that the run-time gives: of the network, or a path
pub data DenoAddr : Type 0 where
  net : ℤ → String → DenoAddr
  unix : String → DenoAddr

unfoldable pub from_deno_addr : DenoAddr → Option Addr
from_deno_addr (net port hostname) = create port hostname
from_deno_addr (unix path) = none

-- the signed reading of a 32-bit residue, with `n` added
unfoldable pub add_signed : ℕ → ℕ → ℤ
add_signed n r =
    if ltb r (2 ^ 31)
    then pos (n + r)
    else (if leb (2 ^ 32) (n + r) then pos (n + r - 2 ^ 32) else negsuc (2 ^ 32 - 1 - (n + r)))

-- `hashCode`
unfoldable pub hash : Addr → ℤ
hash a = add_signed (a.port * 31) (hash_code (code_units a.hostname))

-- `toString`
unfoldable pub to_string : Addr → Text
to_string a = code_units a.hostname ++ codes ":" ++ decimal a.port
