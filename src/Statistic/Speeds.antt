-- ===== src/Statistic/Speeds.antt =====
-- src/statistic.ts: what the counters of a direction say of the seconds that were measured.
use utp.Base.{
  ℕ, zero, suc, sym, subst, ◌+◌, ◌≤◌, ◌*◌, ◌≡◌, refl, ◌∙◌, ap, min, max, List, [], ◌∷◌, Option,
  none, some, ltb, if◌then◌else◌, arith, length,
}
use utp.Statistic.{
  Meter, Statistic, Run, new, update_sent_data, update_recv_data, add_data, measure, second_over,
  release, clear, start_speed_measurement, or_zero, least_speed,
}

-- the calls of a statistic, each with the identifier that `setInterval` would give
pub data Call : Type 0 where
  sends receives : (id amount : ℕ) → Call
  starts : (id : ℕ) → Call
  ticks releases clears : Call

unfoldable pub step : Statistic → Call → Run
step s (sends id amount) = update_sent_data s id amount
step s (receives id amount) = update_recv_data s id amount
step s (starts id) = start_speed_measurement s id
step s ticks = (second_over s, [])
step s releases = release s
step s clears = clear s

unfoldable pub run : Statistic → List Call → Statistic
run s [] = s
run s (call ∷ calls) = run (step s call).0 calls

-- What is measured: the amounts of the seconds in which there was data, and that of the second that runs.
abbrev pub History : Type 0
History = List ℕ × ℕ

abbrev pub note_data : History → ℕ → History
note_data (seconds, now) amount = (seconds, now + amount)

abbrev pub note_second : History → History
note_second (seconds, now) = (if ltb 0 now then now ∷ seconds else seconds, 0)

-- a call, as the direction that sends sees it, and as the one that receives does
abbrev pub sent_history : History → Call → History
sent_history h (sends id amount) = note_data h amount
sent_history h ticks = note_second h
sent_history h clears = ([], 0)
sent_history h (receives id amount) = h
sent_history h (starts id) = h
sent_history h releases = h

abbrev pub recv_history : History → Call → History
recv_history h (receives id amount) = note_data h amount
recv_history h ticks = note_second h
recv_history h clears = ([], 0)
recv_history h (sends id amount) = h
recv_history h (starts id) = h
recv_history h releases = h

abbrev pub history : (History → Call → History) → List Call → History → History
history note [] h = h
history note (call ∷ calls) h = history note calls (note h call)

abbrev pub sum : List ℕ → ℕ
sum [] = 0
sum (n ∷ ns) = sum ns + n

abbrev pub largest : List ℕ → ℕ
largest [] = 0
largest (n ∷ ns) = max (largest ns) n

abbrev pub least : List ℕ → Option ℕ
least [] = none
least (n ∷ ns) = some (elim (least ns) [ none ↦ n | some m ↦ min m n ])

-- the meter of a history
abbrev pub meter : History → Meter
meter (seconds, now) = record {
  data_count = sum seconds + now;
  data_in_last_second = now;
  total_speed_accumulator = sum seconds;
  speed_measurements = length seconds;
  max_speed = largest seconds;
  min_speed = least seconds;
}

add_data-meter : (h : History) (amount : ℕ) → add_data (meter h) amount ≡ meter (note_data h amount)
unfolding add_data
add_data-meter (seconds, now) amount = ground arith

measure-meter : (h : History) → measure (meter h) ≡ meter (note_second h)
unfolding measure
measure-meter (seconds, now) = ground arith

sent-step :
    (s : Statistic) (h : History) (call : Call)
    → s.sent ≡ meter h
    → (step s call).0.sent ≡ meter (sent_history h call)
unfolding step update_sent_data update_recv_data start_speed_measurement second_over release clear
sent-step s h (sends id amount) e = ground (arith, add_data-meter h amount)
sent-step s h (receives id amount) e = ground arith
sent-step s h (starts id) e = ground arith
sent-step s h ticks e = ap measure e ∙ measure-meter h
sent-step s h releases e = ground arith
sent-step s h clears e = refl

recv-step :
    (s : Statistic) (h : History) (call : Call)
    → s.recv ≡ meter h
    → (step s call).0.recv ≡ meter (recv_history h call)
unfolding step update_sent_data update_recv_data start_speed_measurement second_over release clear
recv-step s h (receives id amount) e = ground (arith, add_data-meter h amount)
recv-step s h (sends id amount) e = ground arith
recv-step s h (starts id) e = ground arith
recv-step s h ticks e = ap measure e ∙ measure-meter h
recv-step s h releases e = ground arith
recv-step s h clears e = refl

run-meters :
    (calls : List Call) (s : Statistic) (h k : History)
    → s.sent ≡ meter h
    → s.recv ≡ meter k
    → ((run s calls).sent ≡ meter (history sent_history calls h))
      × ((run s calls).recv ≡ meter (history recv_history calls k))
unfolding run
run-meters [] s h k e f = (e, f)
run-meters (call ∷ calls) s h k e f =
    run-meters calls (step s call).0 (sent_history h call) (recv_history k call)
      (sent-step s h call e) (recv-step s k call f)

-- After any calls, the counters of each direction are those of its history: the total is the sum of the
-- amounts, the accumulator, the number of measurements, the greatest and the least speed are those of the seconds
-- in which there was data.
pub counters_lem :
    (calls : List Call)
    → ((run new calls).sent ≡ meter (history sent_history calls ([], 0)))
      × ((run new calls).recv ≡ meter (history recv_history calls ([], 0)))
counters_lem calls = run-meters calls new ([], 0) ([], 0) refl refl

spread : (a b k : ℕ) → a ≤ b → a * k ≤ b * k
spread a b zero h = omega arith
spread a b (suc k) h = omega (arith, spread a b k h)

-- The speeds of a history lie between the least and the greatest, so their mean does.
least_bound : (ns : List ℕ) → or_zero (least ns) * length ns ≤ sum ns
unfolding or_zero
least_bound [] = omega arith
least_bound (n ∷ []) = omega arith
least_bound (n ∷ k ∷ ns) =
    let m = or_zero (least (k ∷ ns)) in
    omega (arith, least_bound (k ∷ ns), spread (min m n) m (length (k ∷ ns)) (omega arith))

largest_bound : (ns : List ℕ) → sum ns ≤ largest ns * length ns
largest_bound [] = omega arith
largest_bound (n ∷ ns) =
    omega
      (arith, largest_bound ns, spread (largest ns) (max (largest ns) n) (length ns) (omega arith))

abbrev pub IsBalanced : Meter → Type 0
IsBalanced m =
    (least_speed m * m.speed_measurements ≤ m.total_speed_accumulator)
    × (m.total_speed_accumulator ≤ m.max_speed * m.speed_measurements)
    × (m.data_count ≡ m.total_speed_accumulator + m.data_in_last_second)

balanced : (h : History) → IsBalanced (meter h)
unfolding least_speed
balanced (seconds, now) = (least_bound seconds, largest_bound seconds, refl)

-- After any calls, in each direction the accumulated speeds lie between the least and the greatest speed times the
-- number of measurements, and the total data is what was accumulated and the data of the second that runs.
pub speeds_bounded :
    (calls : List Call) → let s = run new calls in IsBalanced s.sent × IsBalanced s.recv
speeds_bounded calls =
    let (e, f) = counters_lem calls in
    (subst IsBalanced (sym e) (balanced _), subst IsBalanced (sym f) (balanced _))
