-- ===== src/Tests/Queues.antt =====
-- A queue of capacity 2 that is full.
use utp.Base.{ℕ, ◌<◌, ◌≡◌, refl, true, false, List, [], ◌∷◌, some, none, arith}
use utp.Base.Map
use utp.Base.Map.{nat_key}
use utp.Base.Sort.{contains, IsSortedBy}
use utp.CircularQueue.{
  CircularQueue, minimum, is_at_capacity, size, keys, has, enqueue, dequeue_by_key,
}
use utp.CircularQueue.Invariant.{IsValid}
use utp.CircularQueue.Contents.{lookup, lookup_after_edits}

abbrev full_queue : CircularQueue ℕ
full_queue = record { capacity = 2; items = (7, 70) ∷ (5, 50) ∷ []; oldest_key = some 5 }

full_queue-IsValid : IsValid full_queue
unfolding size minimum Map.size Map.keys Map.has
full_queue-IsValid = record { distinct = (refl, (refl, tt)); bounded = omega arith; oldest = refl }

keys_runs : keys full_queue ≡ 5 ∷ 7 ∷ []
unfolding keys Map.keys utp.Base.Sort.sort_by
keys_runs = refl

-- The smallest key makes room for the new one.
lookup_after_edits_example :
    (lookup (enqueue full_queue 9 90) 5 ≡ none)
    × ((dequeue_by_key full_queue 9).0 ≡ none)
    × (lookup (dequeue_by_key full_queue 9).1 5 ≡ some 50)
unfolding has is_at_capacity minimum size Map.size Map.keys Map.has Map.get
lookup_after_edits_example = lookup_after_edits full_queue 9 5 90 full_queue-IsValid
