-- ===== src/BlockingQueue.antt =====
-- src/blocking_queue.ts: a queue of limited size whose `enqueue` waits for room and whose `dequeue` waits for an
-- item. A round of the `while` of a call is an `attempt`: it waits, under its number, or it succeeds. A call that is woken
-- attempts again, as a new call does, so any interleaving of calls is a sequence of attempts.
pub mod Fifo
use utp.Base.{
  ℕ, ◌-◌, Bool, List, [], ◌∷◌, ◌++◌, Option, none, some, length, leb, ◌==◌, if◌then◌else◌,
}

module _ (A : Type 0) where
  pub record BlockingQueue : Type 0 where
    pub queue : List A
    pub max_size : ℕ
    -- the one call that is known to wait
    pub resolve_waiting : Option ℕ

  -- the two calls that may wait
  pub data Call : Type 0 where
    enqueue : A → Call
    dequeue : Call

  pub data Outcome : Type 0 where
    waits : Outcome
    stored : A → Outcome
    taken : A → Outcome

  -- the result of an attempt: the queue, how it ends, and the call that it wakes
  abbrev pub Attempt : Type 0
  Attempt = BlockingQueue × Outcome × Option ℕ

module _ {A : Type 0} where
  unfoldable pub create : ℕ → BlockingQueue A
  create max_size = record { queue = []; max_size = max_size; resolve_waiting = none }

  unfoldable pub size : BlockingQueue A → ℕ
  size q = length q.queue

  -- 0 where the source has a negative number; the queue is never longer than its limit
  unfoldable pub left_capacity : BlockingQueue A → ℕ
  left_capacity q = q.max_size - length q.queue

  unfoldable pub is_full : BlockingQueue A → Bool
  is_full q = leb q.max_size (length q.queue)

  unfoldable pub clear : BlockingQueue A → BlockingQueue A
  clear q = record q { queue = [] }

  unfoldable pub wait : BlockingQueue A → ℕ → Attempt A
  wait q caller = (record q { resolve_waiting = some caller }, waits, none)

  unfoldable pub succeed : BlockingQueue A → List A → Outcome A → Attempt A
  succeed q items outcome =
      (record q { queue = items; resolve_waiting = none }, outcome, q.resolve_waiting)

  unfoldable pub attempt_dequeue : BlockingQueue A → ℕ → List A → Attempt A
  attempt_dequeue q caller [] = wait q caller
  attempt_dequeue q caller (item ∷ items) = succeed q items (taken item)

  unfoldable pub attempt : BlockingQueue A → ℕ → Call A → Attempt A
  attempt q caller (enqueue item) =
      if is_full q then wait q caller else succeed q (q.queue ++ item ∷ []) (stored item)
  attempt q caller dequeue = attempt_dequeue q caller q.queue
