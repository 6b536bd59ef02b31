-- ===== src/Tests/Buffers.antt =====
-- A byte buffer that is a list, a receive buffer with two reads that wait, and a full map.
use utp.Base.{
  ℕ, ◌≡◌, ◌==◌, inr, refl, false, List, [], ◌∷◌, ◌++◌, none, some, arith, length, take, drop, ltb,
  if◌then◌else◌,
}
use utp.Base.Map
use utp.Base.Map.{nat_key}
use utp.BlockingBuffer.{ByteBuffer, BlockingBuffer, Reader}
use utp.BlockingBuffer.Fifo.{Op, put, get, shut, run, run_lem, held, all_written}
use utp.BlockingBuffer.Invariant.{IsValid}
use utp.BlockingMap.{BlockingMap, set, delete, update_capacity}
use utp.BlockingMap.Waiting.{IsSettled, operations-IsSettled}

abbrev pub list_buffer : ByteBuffer
list_buffer = record {
  B = List ℕ;
  empty = [];
  contents = λ b. b;
  write = λ b d. (length d, b ++ d);
  read = λ b n. if length b == 0 then (none, b) else (some (take n b), drop n b);
  contents-empty = refl;
  write_count = λ b d. refl;
  contents-write = λ b d. refl;
  read_bytes = λ b n h. ground arith;
  contents-read = λ b n h. ground arith;
}

abbrev reader : ℕ → ℕ → Reader
reader id room = record { id = id; room = room }

abbrev pub waiting_buffer : BlockingBuffer list_buffer
waiting_buffer = record {
  total_bytes_written = 0;
  total_bytes_read = 0;
  buffer = [];
  read_resolvers = reader 1 2 ∷ reader 2 4 ∷ [];
  closed = false;
  closed_for_writing = false;
  max_bytes = 1000;
}

waiting_buffer-IsValid : IsValid list_buffer waiting_buffer
waiting_buffer-IsValid = record {
  waiting = inr refl;
  draining = λ e. ground arith;
  closed_quiet = λ e. ground arith;
  closed_empty = λ e. refl;
}

calls : List Op
calls = put (10 ∷ 11 ∷ 12 ∷ []) ∷ put (13 ∷ []) ∷ shut ∷ get (reader 3 9) ∷ []

run_lem_example :
    (run list_buffer waiting_buffer calls).1
      ++ held list_buffer (run list_buffer waiting_buffer calls).0
    ≡ held list_buffer waiting_buffer ++ all_written calls
run_lem_example = run_lem list_buffer calls waiting_buffer

abbrev full_map : BlockingMap ℕ ℕ
full_map = record {
  map = (1, 10) ∷ (2, 20) ∷ [];
  capacity = 2;
  waiting_setters = (3, 30) ∷ (4, 40) ∷ [];
}

full_map-IsSettled : IsSettled ltb full_map
unfolding Map.size Map.keys
full_map-IsSettled = inr refl

operations-IsSettled_example :
    IsSettled ltb (set ltb full_map 1 50).0.0
    × IsSettled ltb (delete ltb full_map 1).0
    × IsSettled ltb (update_capacity ltb full_map 3).0
operations-IsSettled_example = operations-IsSettled ltb full_map 1 50 3 full_map-IsSettled
