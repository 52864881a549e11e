-- ===== src/Traffic/Shaper.antt =====
-- BurstShaper and traffic_interval_ms of cdn/include/pacetun/traffic.hpp. A draw of the random source is an
-- argument; the settings are those of a checked configuration, which are not negative.
pub mod Due
use pacetun.Base.{
  ℕ, ◌+◌, ◌-◌, ◌*◌, ◌/◌, Bool, true, false, ◌&&◌, ◌||◌, ltb, leb, ◌==◌, if◌then◌else◌, min, max,
  add64, sub64,
}

pub record BurstShaper : Type 0 where
  pub start : ℕ
  pub window : ℕ
  pub bytes : ℕ
  pub due : ℕ

abbrev pub new_shaper : ℕ → BurstShaper
new_shaper now = record { start = now; window = now; bytes = 0; due = 0 }

unfoldable pub observe : BurstShaper → ℕ → ℕ → BurstShaper
observe s n now =
    if leb 1000000 (sub64 now s.window)
    then record s { window = now; bytes = add64 0 n }
    else record s { bytes = add64 s.bytes n }

unfoldable pub bulk : BurstShaper → ℕ → Bool
bulk s now = ltb (sub64 now s.window) 1000000 && leb 65536 s.bytes

unfoldable pub maximum : BurstShaper → ℕ → ℕ → ℕ → ℕ
unfolding bulk
maximum s configured startup_ms now =
    min configured
      (if ltb (sub64 now s.start) (startup_ms * 1000) then 256 else if bulk s now then 16 else 96)

-- `draw` is what the distribution over 0 to max_delay_ms * 1000 gives, if it is asked.
unfoldable pub ready : BurstShaper → ℕ → ℕ → ℕ → ℕ → ℕ → BurstShaper × Bool
unfolding bulk
ready s packets age_us max_delay_ms draw now =
    let due = if s.due == 0 then add64 now draw else s.due in
    if packets == 0
    then (record s { due = 0 }, false)
    else if max_delay_ms == 0 || leb 8 packets || bulk s now || leb (max_delay_ms * 1000) age_us
    then (record s { due = 0 }, true)
    else if leb due now
    then (record s { due = 0 }, true)
    else (record s { due = due }, false)

-- `seconds * 1000` with a jitter; `drawn` is the draw over -spread to spread, counted from -spread.
unfoldable pub traffic_interval_ms : ℕ → ℕ → ℕ → ℕ
traffic_interval_ms seconds jitter_pct drawn =
    let base = seconds * 1000 in max 1 (base + drawn - base * jitter_pct / 100)
