-- ===== src/Statistic.antt =====
-- src/statistic.ts: the data that a connection sent and received, and their speeds. The fields come twice, once for
-- each direction: they are a `Meter`. Amounts are whole numbers.
pub mod Speeds
pub mod Interval
use utp.Base.{
  ℕ, ◌+◌, min, max, Bool, true, false, List, [], ◌∷◌, ◌++◌, Option, none, some, ltb, if◌then◌else◌,
}
use utp.Base.Timing.{Timing, set_interval, clear_interval}
use utp.Base.Number.{JsNumber}

pub record Meter : Type 0 where
  pub data_count : ℕ
  pub data_in_last_second : ℕ
  pub total_speed_accumulator : ℕ
  pub speed_measurements : ℕ
  pub max_speed : ℕ
  -- `none` is `Number.POSITIVE_INFINITY`
  pub min_speed : Option ℕ

pub record Statistic : Type 0 where
  pub sent : Meter
  pub recv : Meter
  pub interval_id : Option ℕ
  pub started : Bool

abbrev pub Run : Type 0
Run = Statistic × List Timing

abbrev pub new_meter : Meter
new_meter = record {
  data_count = 0;
  data_in_last_second = 0;
  total_speed_accumulator = 0;
  speed_measurements = 0;
  max_speed = 0;
  min_speed = none;
}

abbrev pub new : Statistic
new = record { sent = new_meter; recv = new_meter; interval_id = none; started = false }

unfoldable pub or_zero : Option ℕ → ℕ
or_zero none = 0
or_zero (some n) = n

-- `minSentSpeed` and `minRecvSpeed`
unfoldable pub least_speed : Meter → ℕ
least_speed m = or_zero m.min_speed

-- `averageSentSpeed` and `averageRecvSpeed`
unfoldable pub average_speed : (𝓝 : JsNumber) → Meter → 𝓝.Num
average_speed 𝓝 m =
    if ltb 0 m.speed_measurements
    then 𝓝.over (𝓝.of_ℕ m.total_speed_accumulator) (𝓝.of_ℕ m.speed_measurements)
    else 𝓝.of_ℕ 0

abbrev clear_existing : Option ℕ → List Timing
clear_existing none = []
clear_existing (some id) = clear_interval id ∷ []

-- `startSpeedMeasurement`; `id` is what `setInterval` gives
unfoldable pub start_speed_measurement : Statistic → (id : ℕ) → Run
start_speed_measurement s id = if s.started then (s, []) else (
  record s { started = true; interval_id = some id },
  clear_existing s.interval_id ++ set_interval id ∷ [],
)

unfoldable pub add_data : Meter → ℕ → Meter
add_data m amount = record m {
  data_count = m.data_count + amount;
  data_in_last_second = m.data_in_last_second + amount;
}

unfoldable pub update_sent_data : Statistic → (id amount : ℕ) → Run
update_sent_data s id amount =
    let (s', timings) = if s.started then (s, []) else start_speed_measurement s id in
    (record s' { sent = add_data s'.sent amount }, timings)

unfoldable pub update_recv_data : Statistic → (id amount : ℕ) → Run
update_recv_data s id amount =
    let (s', timings) = if s.started then (s, []) else start_speed_measurement s id in
    (record s' { recv = add_data s'.recv amount }, timings)

abbrev lower : Option ℕ → ℕ → ℕ
lower none speed = speed
lower (some least) speed = min least speed

-- what the interval does for one direction
unfoldable pub measure : Meter → Meter
measure m =
    let speed = m.data_in_last_second in
    let measured : Meter =
      if ltb 0 speed
      then record m {
        max_speed = max m.max_speed speed;
        min_speed = some (lower m.min_speed speed);
        total_speed_accumulator = m.total_speed_accumulator + speed;
        speed_measurements = m.speed_measurements + 1;
      }
      else m in
    record measured { data_in_last_second = 0 }

-- a round of the interval
unfoldable pub second_over : Statistic → Statistic
second_over s = record s { sent = measure s.sent; recv = measure s.recv }

unfoldable pub release : Statistic → Run
release s = elim s.interval_id [
  | none ↦ (s, [])
  | some id ↦ (record s { interval_id = none; started = false }, clear_interval id ∷ [])
]

unfoldable pub clear : Statistic → Run
clear s =
    let (s', timings) = release s in (record s' { sent = new_meter; recv = new_meter }, timings)
