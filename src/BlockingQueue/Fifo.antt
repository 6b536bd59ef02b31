-- ===== src/BlockingQueue/Fifo.antt =====
-- src/blocking_queue.ts: first in, first out, within the limit.
use utp.Base.{
  ℕ, ◌≤◌, ◌≡◌, refl, ◌∙◌, sym, ap, subst, Bool-cases, inl, inr, List, [], ◌∷◌, ◌++◌, length,
  length-append, leb, arith, append-nil, append_assoc,
}
use utp.BlockingQueue.{
  BlockingQueue, Call, Attempt, Outcome, enqueue, dequeue, waits, stored, taken, create, is_full,
  wait, succeed, attempt_dequeue, attempt,
}

module _ {A : Type 0} where
  -- attempts of numbered calls, with the outcomes in order
  abbrev pub attempts : BlockingQueue A → List (ℕ × Call A) → BlockingQueue A × List (Outcome A)
  attempts q [] = (q, [])
  attempts q ((caller, call) ∷ calls) =
      let (q', outcome, woken) = attempt q caller call in
      let (last, outcomes) = attempts q' calls in (last, outcome ∷ outcomes)

  -- the items that went in, and those that came out
  abbrev pub all_stored : List (Outcome A) → List A
  all_stored [] = []
  all_stored (waits ∷ os) = all_stored os
  all_stored (stored a ∷ os) = a ∷ all_stored os
  all_stored (taken a ∷ os) = all_stored os

  abbrev pub all_taken : List (Outcome A) → List A
  all_taken [] = []
  all_taken (waits ∷ os) = all_taken os
  all_taken (stored a ∷ os) = all_taken os
  all_taken (taken a ∷ os) = a ∷ all_taken os

  abbrev pub IsBounded : BlockingQueue A → Type 0
  IsBounded q = length q.queue ≤ q.max_size

  abbrev pub IsFifo : BlockingQueue A → Attempt A → Type 0
  IsFifo q (q', outcome, woken) =
      q.queue ++ all_stored (outcome ∷ []) ≡ all_taken (outcome ∷ []) ++ q'.queue

  abbrev pub StaysBounded : BlockingQueue A → Attempt A → Type 0
  StaysBounded q (q', outcome, woken) = (length q'.queue ≤ q.max_size) × (q'.max_size ≡ q.max_size)

  dequeue-IsFifo :
      (q : BlockingQueue A) (caller : ℕ) (items : List A)
      → q.queue ≡ items
      → IsFifo q (attempt_dequeue q caller items)
  unfolding attempt_dequeue wait succeed
  dequeue-IsFifo q caller [] e = append-nil q.queue
  dequeue-IsFifo q caller (item ∷ items) e = append-nil q.queue ∙ e

  attempt-IsFifo :
      (q : BlockingQueue A) (caller : ℕ) (call : Call A) → IsFifo q (attempt q caller call)
  unfolding attempt wait succeed
  attempt-IsFifo q caller (enqueue item) = elim (Bool-cases (is_full q)) [
    | inl full ↦ rw full (append-nil q.queue)
    | inr room ↦ rw room refl
  ]
  attempt-IsFifo q caller dequeue = dequeue-IsFifo q caller q.queue refl

  dequeue-StaysBounded :
      (q : BlockingQueue A) (caller : ℕ) (items : List A)
      → q.queue ≡ items
      → IsBounded q
      → StaysBounded q (attempt_dequeue q caller items)
  unfolding attempt_dequeue wait succeed
  dequeue-StaysBounded q caller [] e h = (h, refl)
  dequeue-StaysBounded q caller (item ∷ items) e h = (omega (arith, ap length e), refl)

  attempt-StaysBounded :
      (q : BlockingQueue A) (caller : ℕ) (call : Call A)
      → IsBounded q
      → StaysBounded q (attempt q caller call)
  unfolding attempt wait succeed is_full
  attempt-StaysBounded q caller (enqueue item) h =
      elim (Bool-cases (leb q.max_size (length q.queue))) [
        | inl full ↦ rw full (h, refl)
        | inr room ↦ rw room (ground (arith, length-append q.queue (item ∷ [])), refl)
      ]
  attempt-StaysBounded q caller dequeue h = dequeue-StaysBounded q caller q.queue refl h

  stored-cons :
      (o : Outcome A) (os : List (Outcome A))
      → all_stored (o ∷ os) ≡ all_stored (o ∷ []) ++ all_stored os
  stored-cons waits os = refl
  stored-cons (stored a) os = refl
  stored-cons (taken a) os = refl

  taken-cons :
      (o : Outcome A) (os : List (Outcome A))
      → all_taken (o ∷ os) ≡ all_taken (o ∷ []) ++ all_taken os
  taken-cons waits os = refl
  taken-cons (stored a) os = refl
  taken-cons (taken a) os = refl

  chain : (a b c d e f : List A) → a ++ b ≡ c ++ d → d ++ e ≡ f → a ++ (b ++ e) ≡ c ++ f
  chain a b c d e f p q =
      sym (append_assoc a b e) ∙ ap (λ l. l ++ e) p ∙ append_assoc c d e ∙ ap (λ l. c ++ l) q

  attempts_in_order :
      (calls : List (ℕ × Call A)) (q : BlockingQueue A)
      → let (last, outcomes) = attempts q calls in
        q.queue ++ all_stored outcomes ≡ all_taken outcomes ++ last.queue
  attempts_in_order [] q = append-nil q.queue
  attempts_in_order ((caller, call) ∷ calls) q =
      let (q', outcome, woken) = attempt q caller call in
      let (last, outcomes) = attempts q' calls in
      rw (stored-cons outcome outcomes, taken-cons outcome outcomes, append_assoc)
        (chain q.queue _ _ q'.queue _ _ (attempt-IsFifo q caller call) (attempts_in_order calls q'))

  attempts-IsBounded :
      (calls : List (ℕ × Call A)) (q : BlockingQueue A)
      → IsBounded q
      → (length (attempts q calls).0.queue ≤ q.max_size)
  attempts-IsBounded [] q h = h
  attempts-IsBounded ((caller, call) ∷ calls) q h =
      let q' = (attempt q caller call).0 in
      let (bound, same) = attempt-StaysBounded q caller call h in
      subst (λ n. length (attempts q' calls).0.queue ≤ n) same
        (attempts-IsBounded calls q' (subst (λ n. length q'.queue ≤ n) (sym same) bound))

  -- However the attempts of its callers interleave, what came out of a queue that was empty at first and what is
  -- still in it are together what went in, in that order, and it never holds more than its limit.
  pub attempts_fifo :
      (max_size : ℕ) (calls : List (ℕ × Call A))
      → let (last, outcomes) = attempts (create max_size) calls in
        (all_stored outcomes ≡ all_taken outcomes ++ last.queue) × (length last.queue ≤ max_size)
  unfolding create
  attempts_fifo max_size calls = (
    attempts_in_order calls (create max_size),
    attempts-IsBounded calls (create max_size) (omega arith),
  )
