-- ===== src/Ssh/SpeedMeter.antt =====
-- internal/sshclient/upload.go, `uploadSpeedMeter`. Times and durations are in nanoseconds; the quotient
-- `int64(float64(bytes) / elapsed.Seconds())` is the argument `per_second`.
use lab_remote_go.Common.{
  ℕ, ◌+◌, ◌-◌, ◌*◌, ◌/◌, max, Bool, false, Option, none, some, leb, ◌==◌, if◌then◌else◌,
}

abbrev pub speed_sample_interval : ℕ
speed_sample_interval = 250000000

abbrev pub speed_idle_timeout : ℕ
speed_idle_timeout = 2000000000

-- `none` is the zero time
pub record SpeedMeter : Type 0 where
  pub sample_started_at : Option ℕ
  pub last_byte_at : Option ℕ
  pub pending_bytes : ℕ
  pub bytes_per_second : ℕ

abbrev pub new_meter : SpeedMeter
new_meter = record {
  sample_started_at = none;
  last_byte_at = none;
  pending_bytes = 0;
  bytes_per_second = 0;
}

abbrev pub reset_meter : ℕ → SpeedMeter
reset_meter now = record {
  sample_started_at = some now;
  last_byte_at = none;
  pending_bytes = 0;
  bytes_per_second = 0;
}

-- idle for the timeout since the last byte, if there was one
abbrev pub idle_since : ℕ → Option ℕ → Bool
idle_since now none = false
idle_since now (some at) = leb speed_idle_timeout (now - at)

abbrev pub current_of : ℕ → ℕ → Option ℕ → ℕ
current_of rate now none = 0
current_of rate now (some at) = if leb speed_idle_timeout (now - at) then 0 else rate

unfoldable pub current_speed : ℕ → SpeedMeter → ℕ
current_speed now m = current_of m.bytes_per_second now m.last_byte_at

abbrev pub started : ℕ → SpeedMeter → SpeedMeter
started now m = elim m.sample_started_at [ none ↦ reset_meter now | some at ↦ m ]

abbrev pub since : ℕ → Option ℕ → ℕ
since now none = 0
since now (some at) = now - at

module _ (per_second : ℕ → ℕ → ℕ) where
  -- After a pause the first bytes give the speed at once.
  abbrev pub after_pause : ℕ → ℕ → SpeedMeter → SpeedMeter
  after_pause now delta m = record {
    sample_started_at = some now;
    last_byte_at = some now;
    pending_bytes = 0;
    bytes_per_second = max 1 (per_second delta (since now m.last_byte_at));
  }

  abbrev pub smoothed : ℕ → ℕ → ℕ
  smoothed rate sample = if rate == 0 then sample else (rate * 2 + sample) / 3

  abbrev pub counted : ℕ → ℕ → SpeedMeter → SpeedMeter
  counted now delta m =
      let pending = m.pending_bytes + delta in
      let elapsed = since now m.sample_started_at in
      if leb speed_sample_interval elapsed
      then record {
        sample_started_at = some now;
        last_byte_at = some now;
        pending_bytes = 0;
        bytes_per_second = smoothed m.bytes_per_second (per_second pending elapsed);
      }
      else record m { pending_bytes = pending; last_byte_at = some now }

  abbrev pub add_positive : ℕ → ℕ → SpeedMeter → SpeedMeter × ℕ
  add_positive now delta m =
      if idle_since now m.last_byte_at
      then (after_pause now delta m, (after_pause now delta m).bytes_per_second)
      else (counted now delta m, current_speed now (counted now delta m))

  unfoldable pub add_bytes : ℕ → ℕ → SpeedMeter → SpeedMeter × ℕ
  add_bytes now delta m =
      if delta == 0 then (m, current_speed now m) else add_positive now delta (started now m)
