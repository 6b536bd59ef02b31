-- ===== src/Tests/Services.antt =====
-- A statistic, the timers, the queue and the context.
use utp.Base.{ℕ, ◌≤◌, ◌≡◌, refl, true, false, List, [], ◌∷◌, ◌++◌, arith, length}
use utp.Base.Map
use utp.Base.Map.{nat_key}
use utp.Base.Texts.{Text, text_key}
use utp.Statistic
use utp.Statistic.Speeds.{Call, sends, receives, ticks, releases, run, meter, counters_lem}
use utp.Timers
use utp.Timers.Running
use utp.Timers.Running.{AreRunning, table_runs}
use utp.BlockingQueue.{enqueue, dequeue}
use utp.BlockingQueue
use utp.BlockingQueue.Fifo.{attempts, all_stored, all_taken, attempts_fifo}
use utp.Context
use utp.Context.{get_logger, set_debug, is_log_enabled, set_listener_type, is_named}
use utp.Context.Reach.{gets_logger, sets_listener_type, sets_debug, debug_reaches}

abbrev traffic : List Call
traffic =
    sends 1 100 ∷ receives 2 7 ∷ ticks ∷ sends 3 40 ∷ ticks ∷ ticks ∷ sends 4 5 ∷ releases ∷ []

counters_lem_example :
    ((run Statistic.new traffic).sent ≡ meter (40 ∷ 100 ∷ [], 5))
    × ((run Statistic.new traffic).recv ≡ meter (7 ∷ [], 0))
counters_lem_example = counters_lem traffic

abbrev timer_calls : List (Running.Call ℕ)
timer_calls = Running.sets 1 10 ∷ Running.sets 2 11 ∷ Running.sets 1 12 ∷ Running.clears 2 ∷ []

timer_calls-AreFresh : Running.AreFresh [] [] timer_calls
unfolding Running.step Timers.set_timer Timers.clear_timer Map.has Map.get Map.set Map.delete
timer_calls-AreFresh = ((omega arith, refl), ((omega arith, refl), ((omega arith, refl), (tt, tt))))

table_runs_example : let (m, is) = Running.run [] [] timer_calls in AreRunning m is
table_runs_example = table_runs timer_calls timer_calls-AreFresh

-- The second call waits, and goes on when the third has made room.
abbrev queue_calls : List (ℕ × BlockingQueue.Call ℕ)
queue_calls = (1, enqueue 10) ∷ (2, enqueue 20) ∷ (3, dequeue) ∷ (2, enqueue 20) ∷ []

attempts_fifo_example :
    let (last, outcomes) = attempts (BlockingQueue.create 1) queue_calls in
    (all_stored outcomes ≡ all_taken outcomes ++ last.queue) × (length last.queue ≤ 1)
attempts_fifo_example = attempts_fifo 1 queue_calls

-- `A` and `M`
abbrev name_a : Text
name_a = b'A' ∷ []

abbrev name_m : Text
name_m = b'M' ∷ []

debug_reaches_example :
    let (c, tag) =
      get_logger
        (Context.Reach.run Context.new (sets_debug false ∷ sets_listener_type name_a ∷ []))
        name_m in
    is_log_enabled (set_debug c true).behind tag ≡ true
debug_reaches_example =
    debug_reaches (sets_debug false ∷ sets_listener_type name_a ∷ []) name_m true

-- The logger `A:M` is got before the type of the listener changes to `M`.
abbrev moved : Context.Context
moved = set_listener_type (get_logger (set_listener_type Context.new name_a) name_m).0 name_m
