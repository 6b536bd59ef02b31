-- ===== src/Conn/Listeners.antt =====
-- src/utp_conn.ts: the listeners of the state, `addListener`, `removeListener` and the `forEach` of `notifyStateChange`,
-- which goes by the index while a listener that is called may remove itself. A listener is a number; `leaves` says which
-- of them remove themselves when they are told of the state.
use utp.Base.{
  ℕ, zero, suc, ◌+◌, ◌≤◌, ◌≡◌, refl, sym, ◌∙◌, ap, ap₂, Bool, true, false, ◌||◌, Bool-cases, inl,
  inr, List, [], ◌∷◌, ◌++◌, none, some, ◌==◌, if◌then◌else◌, arith, length, length-append,
  append_assoc, get_elem?,
}
use utp.Base.Sort.{contains}

unfoldable pub add_listener : List ℕ → ℕ → List ℕ
add_listener ls l = ls ++ l ∷ []

-- the first that is the same, if there is one
unfoldable pub remove_listener : List ℕ → ℕ → List ℕ
remove_listener [] l = []
remove_listener (m ∷ ls) l = let rest = remove_listener ls l in if m == l then ls else m ∷ rest

-- `n` rounds of `forEach` from the index `i` on: those that are told, in order, and the listeners at the end
unfoldable pub for_each : (ℕ → Bool) → ℕ → ℕ → List ℕ → List ℕ × List ℕ
for_each leaves zero i ls = ([], ls)
for_each leaves (suc n) i ls = elim (get_elem? ls i) [
  | none ↦ ([], ls)
  | some l ↦
      let (told, last) =
        for_each leaves n (i + 1) (if leaves l then remove_listener ls l else ls) in
      (l ∷ told, last)
]

-- `notifyStateChange`; the number of rounds is that of the listeners at the start
unfoldable pub notify_state_change : (ℕ → Bool) → List ℕ → List ℕ × List ℕ
notify_state_change leaves ls = for_each leaves (length ls) 0 ls

-- the listeners without the one behind each that removes itself; `b` says whether the first is such a one
abbrev pub reached : (ℕ → Bool) → Bool → List ℕ → List ℕ
reached leaves b [] = []
reached leaves true (m ∷ ls) = reached leaves false ls
reached leaves false (l ∷ ls) = l ∷ reached leaves (leaves l) ls

-- no listener of a list twice, and none among those in front
abbrev pub AreApart : List ℕ → List ℕ → Type 0
AreApart front [] = Unit {0}
AreApart front (l ∷ ls) = (contains l front ≡ false) × (contains l ls ≡ false) × AreApart front ls

contains-append :
    (x : ℕ) (ys zs : List ℕ) → contains x (ys ++ zs) ≡ (contains x ys || contains x zs)
unfolding contains
contains-append x [] zs = refl
contains-append x (y ∷ ys) zs = ground (arith, contains-append x ys zs)

AreApart-grow :
    (front : List ℕ) (l : ℕ) (ls : List ℕ)
    → contains l ls ≡ false
    → AreApart front ls
    → AreApart (front ++ l ∷ []) ls
unfolding contains
AreApart-grow front l [] n v = tt
AreApart-grow front l (m ∷ ls) n (p, q, v) =
    (ground (arith, contains-append m front (l ∷ [])), q, AreApart-grow front l ls (ground arith) v)

remove-append :
    (front : List ℕ) (l : ℕ) (ls : List ℕ)
    → contains l front ≡ false
    → remove_listener (front ++ l ∷ ls) l ≡ front ++ ls
unfolding remove_listener contains
remove-append [] l ls n = ground arith
remove-append (m ∷ front) l ls n = ground (arith, remove-append front l ls)

at_front :
    (front : List ℕ) (l : ℕ) (ls : List ℕ) → get_elem? (front ++ l ∷ ls) (length front) ≡ some l
at_front [] l ls = refl
at_front (m ∷ front) l ls = at_front front l ls

beyond : (ls : List ℕ) (i : ℕ) → length ls ≤ i → get_elem? ls i ≡ none
beyond [] i h = refl
beyond (l ∷ ls) zero h = absurd (omega arith)
beyond (l ∷ ls) (suc i) h = beyond ls i (omega arith)

-- where the rounds stand: behind the listeners in front, and behind one more if that was skipped
abbrev index : List ℕ → Bool → ℕ
index front true = length front + 1
index front false = length front

for_each-beyond :
    (leaves : ℕ → Bool) (n i : ℕ) (ls : List ℕ) → length ls ≤ i → (for_each leaves n i ls).0 ≡ []
unfolding for_each
for_each-beyond leaves zero i ls h = refl
for_each-beyond leaves (suc n) i ls h = rw (for_each, beyond ls i h) refl

for_each-reached :
    (leaves : ℕ → Bool) (ls : List ℕ) (n : ℕ) (front : List ℕ) (b : Bool)
    → length ls ≤ n
    → AreApart front ls
    → (for_each leaves n (index front b) (front ++ ls)).0 ≡ reached leaves b ls
unfolding for_each
for_each-reached leaves [] n front true h v =
    for_each-beyond leaves n (length front + 1) (front ++ [])
      (omega (arith, length-append front []))
for_each-reached leaves [] n front false h v =
    for_each-beyond leaves n (length front) (front ++ []) (omega (arith, length-append front []))
for_each-reached leaves (m ∷ ls) n front true h (p, q, v) =
    ap₂ (λ i l. (for_each leaves n i l).0) (omega (arith, length-append front (m ∷ [])))
      (sym (append_assoc front (m ∷ []) ls))
    ∙ for_each-reached leaves ls n (front ++ m ∷ []) false (omega arith)
        (AreApart-grow front m ls q v)
for_each-reached leaves (l ∷ ls) zero front false h v = absurd (omega arith)
for_each-reached leaves (l ∷ ls) (suc n) front false h (p, q, v) = elim (Bool-cases (leaves l)) [
  | inl goes ↦
      rw (for_each, at_front front l ls, goes, remove-append front l ls p)
        (ap (◌∷◌ l) (for_each-reached leaves ls n front true (omega arith) v))
  | inr stays ↦
      rw (for_each, at_front front l ls, stays)
        (ap (◌∷◌ l) (
          ap₂ (λ i k. (for_each leaves n i k).0) (omega (arith, length-append front (l ∷ [])))
            (sym (append_assoc front (l ∷ []) ls))
          ∙ for_each-reached leaves ls n (front ++ l ∷ []) false (omega arith)
              (AreApart-grow front l ls q v)))
]

-- Of distinct listeners, those that a change of the state reaches are all but the ones that stand right behind a listener
-- that is reached and removes itself, in order.
pub notify-reached :
    (leaves : ℕ → Bool) (ls : List ℕ)
    → AreApart [] ls
    → (notify_state_change leaves ls).0 ≡ reached leaves false ls
unfolding notify_state_change
notify-reached leaves ls v = for_each-reached leaves ls (length ls) [] false (omega arith) v
