-- ===== src/Socket/Names.antt =====
-- src/utp_conn.ts, `generateUniqueId`: the text that is the key of a connection in the table of the socket. It tells
-- apart what the record of its address and its two numbers does.
use utp.Base.{
  drop, ◌⊎◌, inl, inr, ℕ, ◌<◌, ◌≡◌, ◌↔◌, sym, ap, ◌∙◌, [], ◌∷◌, ◌++◌, append_assoc, arith,
}
use utp.Base.Texts.{Text, codes}
use utp.Addr.{Addr}
use utp.Addr.Create.{to_string}
use utp.Host.{decimal, code_units}
use utp.Host.Parts.{Lacks, cut_last}
use utp.Host.Digits.{decimal-AreDigits, digits-Lacks, decimal-injective}
use utp.Host.Units.{code_units-injective}
use utp.Socket.{UniqueId}

unfoldable pub generate_unique_id : Addr → ℕ → ℕ → Text
generate_unique_id addr send_id recv_id =
    codes "addr("
    ++ to_string addr
    ++ codes ")|send_id("
    ++ decimal send_id
    ++ codes ")|recv_id("
    ++ decimal recv_id
    ++ codes ")"

unfoldable pub name_of : UniqueId → Text
name_of id = generate_unique_id id.addr id.send_id id.recv_id

Lacks-append : (c : ℕ) (s t : Text) → Lacks c s → Lacks c t → Lacks c (s ++ t)
Lacks-append c [] t h k = k
Lacks-append c (x ∷ s) t (n, h) k = (n, Lacks-append c s t h k)

-- digits and then a text, without a mark that is no digit
part-Lacks : (c n : ℕ) (t : Text) → (c < b'0') ⊎ (b'9' < c) → Lacks c t → Lacks c (decimal n ++ t)
part-Lacks c n t out h =
    Lacks-append c (decimal n) t (digits-Lacks c (decimal n) (decimal-AreDigits n) out) h

-- The number that a closing bracket ends is known.
number_of :
    (m n : ℕ) (t : Text) → Lacks b')' t → decimal m ++ b')' ∷ t ≡ decimal n ++ b')' ∷ t → m ≡ n
number_of m n t h e = decimal-injective m n (cut_last b')' (decimal m) (decimal n) t t h h e).0

-- The text in front of the last three opening marks.
front : UniqueId → Text
front id = codes "addr(" ++ code_units id.addr.hostname

up_to_port : UniqueId → Text
up_to_port id = front id ++ b':' ∷ (decimal id.addr.port ++ codes ")|send_id")

up_to_send : UniqueId → Text
up_to_send id = up_to_port id ++ b'(' ∷ (decimal id.send_id ++ codes ")|recv_id")

name-marks :
    (id : UniqueId) → name_of id ≡ up_to_send id ++ b'(' ∷ (decimal id.recv_id ++ codes ")")
unfolding name_of generate_unique_id to_string up_to_send up_to_port front
name-marks id = simp append_assoc

same_front : (i j : UniqueId) → front i ≡ front j → i.addr.hostname ≡ j.addr.hostname
unfolding front
same_front i j e = code_units-injective i.addr.hostname j.addr.hostname (ap (drop 5) e)

same_up_to_port :
    (i j : UniqueId)
    → up_to_port i ≡ up_to_port j
    → (i.addr.hostname ≡ j.addr.hostname) × (i.addr.port ≡ j.addr.port)
unfolding up_to_port
same_up_to_port i j e =
    let (before, after) =
      cut_last b':' (front i) (front j) _ _
        (part-Lacks b':' i.addr.port (codes ")|send_id") (inr (omega arith)) (omega arith))
        (part-Lacks b':' j.addr.port (codes ")|send_id") (inr (omega arith)) (omega arith)) e in
    (
      same_front i j before,
      number_of i.addr.port j.addr.port (codes "|send_id") (omega arith) after,
    )

same_up_to_send :
    (i j : UniqueId)
    → up_to_send i ≡ up_to_send j
    → (i.addr.hostname ≡ j.addr.hostname) × (i.addr.port ≡ j.addr.port) × (i.send_id ≡ j.send_id)
unfolding up_to_send
same_up_to_send i j e =
    let (before, after) =
      cut_last b'(' (up_to_port i) (up_to_port j) _ _
        (part-Lacks b'(' i.send_id (codes ")|recv_id") (inl (omega arith)) (omega arith))
        (part-Lacks b'(' j.send_id (codes ")|recv_id") (inl (omega arith)) (omega arith)) e in
    let (host, port) = same_up_to_port i j before in
    (host, port, number_of i.send_id j.send_id (codes "|recv_id") (omega arith) after)

same_name : (i j : UniqueId) → name_of i ≡ name_of j → i ≡ j
same_name i j e =
    let (before, after) =
      cut_last b'(' (up_to_send i) (up_to_send j) _ _
        (part-Lacks b'(' i.recv_id (codes ")") (inl (omega arith)) (omega arith))
        (part-Lacks b'(' j.recv_id (codes ")") (inl (omega arith)) (omega arith))
        (sym (name-marks i) ∙ e ∙ name-marks j) in
    let (host, port, send) = same_up_to_send i j before in
    let recv = number_of i.recv_id j.recv_id [] tt after in ground arith

-- Two connections have the same unique id exactly if they have the same remote host name, the same port and the same
-- two numbers, whatever the host names are.
pub name_of_iff : (i j : UniqueId) → (name_of i ≡ name_of j) ↔ (i ≡ j)
name_of_iff i j = (same_name i j, ap name_of)
