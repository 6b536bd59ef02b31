-- ===== src/Conn/Arrival.antt =====
-- src/utp_conn.ts, the loop of `processReceivedPackets`: how the acknowledged number moves along the
-- keys of the queue. The rest of the state is left aside here.
use utp.Base.{
  ℕ, ◌+◌, ◌%◌, ◌≤◌, ◌<◌, ◌≡◌, ◌≢◌, ◌⊎◌, refl, false, List, [], ◌∷◌, ◌==◌, if◌then◌else◌, arith,
  Bool-cases, inl, inr,
}
use utp.Base.Sort.{AllAbove, IsSortedBy, contains}
use utp.Seq.{ℤ, add, seq_mod}

-- the number acknowledged after a walk over the keys
unfoldable pub walk : ℕ → List ℕ → ℕ
walk ack [] = ack
walk ack (k ∷ ks) = walk (if add ack (ℤ.pos 1) == k then k % seq_mod else ack) ks

abbrev pub AllFrom : ℕ → List ℕ → Type 0
AllFrom = AllAbove (λ k. k)

AllFrom-mono : (m n : ℕ) (ks : List ℕ) → m ≤ n → AllFrom n ks → AllFrom m ks
AllFrom-mono m n [] h a = tt
AllFrom-mono m n (k ∷ ks) h a = (omega arith, AllFrom-mono m n ks h a.1)

-- Keys that all lie behind the next number move nothing.
walk_stays :
    (ks : List ℕ) (ack : ℕ)
    → ack < seq_mod
    → AllFrom (ack + 2) ks ⊎ (AllFrom 1 ks × (ack ≡ 65535))
    → walk ack ks ≡ ack
unfolding walk add
walk_stays [] ack h a = refl
walk_stays (k ∷ ks) ack h (inl a) = ground (arith, walk_stays ks ack h (inl a.1))
walk_stays (k ∷ ks) ack h (inr (a, e)) = ground (arith, walk_stays ks ack h (inr (a.1, e)))

-- Over ascending keys, with no wrap in front of them, the number never goes back.
pub walk-le :
    (ks : List ℕ) (ack : ℕ)
    → ack < seq_mod
    → (ack < 65535) ⊎ AllFrom 1 ks
    → IsSortedBy (λ k. k) ks
    → ack ≤ walk ack ks
unfolding walk add
walk-le [] ack h a s = omega arith
walk-le (k ∷ ks) ack h a s = elim (Bool-cases (add ack (ℤ.pos 1) == k)) [
  | inl hit ↦ ground (arith, walk-le ks (k % seq_mod), AllFrom-mono 1 k ks)
  | inr miss ↦ ground (arith, walk-le ks ack)
]

pub walk-lt : (ks : List ℕ) (ack : ℕ) → ack < seq_mod → walk ack ks < seq_mod
unfolding walk
walk-lt [] ack h = h
walk-lt (k ∷ ks) ack h = ground (arith, walk-lt ks (k % seq_mod), walk-lt ks ack h)

-- When the walk has missed a key, that key is not the next number at the end.
missed :
    (k ack last : ℕ)
    → ack < seq_mod
    → ack ≤ last
    → add ack (ℤ.pos 1) ≢ k
    → last + 1 < seq_mod
    → (ack + 2 ≤ k → last ≡ ack)
    → k ≢ last + 1
unfolding add
missed k ack last h le ne top stays e = absurd (ground arith)

-- The walk does not stop in front of a key: the next number is then none of the keys.
pub walk_complete :
    (ks : List ℕ) (ack : ℕ)
    → ack < seq_mod
    → (ack < 65535) ⊎ AllFrom 1 ks
    → IsSortedBy (λ k. k) ks
    → walk ack ks + 1 < seq_mod
    → contains (walk ack ks + 1) ks ≡ false
unfolding walk contains
walk_complete [] ack h a s top = refl
walk_complete (k ∷ ks) ack h a s top = elim (Bool-cases (add ack (ℤ.pos 1) == k)) [
  | inl hit ↦ ground (
    arith,
    walk_complete ks (k % seq_mod),
    AllFrom-mono 1 k ks,
    walk-le ks (k % seq_mod),
    walk-lt ks (k % seq_mod),
  )
  | inr miss ↦ ground (
    arith,
    walk_complete ks ack,
    missed k ack (walk ack ks),
    walk_stays ks ack,
    AllFrom-mono (ack + 2) k ks,
    walk-le ks ack,
  )
]
