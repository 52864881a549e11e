-- ===== src/Traffic.antt =====
-- The clockwork of cdn/include/pacetun/traffic.hpp: ReplyWatchdog, RecoveryBackoff and LatencyRenewal.
-- Times are in microseconds.
pub mod Deadline
pub mod Delay
pub mod Spacing
pub mod Shaper
use pacetun.Base.{
  ℕ, suc, ◌+◌, ◌-◌, ◌*◌, ◌/◌, ◌%◌, ◌^◌, Bool, true, false, not, ◌&&◌, ◌||◌, ltb, leb, ◌==◌,
  if◌then◌else◌, min, u64, add64, sub64,
}
use pacetun.Base.Int.{ℤ, pos, negsuc}

pub record ReplyWatchdog : Type 0 where
  pub token : ℕ

abbrev pub pending : ReplyWatchdog → Bool
pending w = not (w.token == 0)

unfoldable pub sent : ReplyWatchdog → ℕ → ReplyWatchdog
sent w token = if pending w then w else record { token = token }

unfoldable pub age_us : ReplyWatchdog → ℕ → ℕ
age_us w now = if pending w && leb w.token now then now - w.token else 0

unfoldable pub reply : ReplyWatchdog → ℕ → ℕ → ReplyWatchdog × Bool
reply w token now =
    if w.token == 0 || not (token == w.token) || ltb now w.token
    then (w, false)
    else (record { token = 0 }, true)

pub record RecoveryBackoff : Type 0 where
  pub next : ℕ
  pub failures : ℕ

unfoldable pub ready : RecoveryBackoff → ℕ → Bool
ready b now = leb b.next now

unfoldable pub started : RecoveryBackoff → ℕ → RecoveryBackoff
started b now = record b { next = add64 now 30000000 }

unfoldable pub failed : RecoveryBackoff → ℕ → RecoveryBackoff
failed b now =
    let n = min 5 (b.failures + 1) in
    record { next = add64 now (min 300 (30 * 2 ^ (n - 1)) * 1000000); failures = n }

unfoldable pub succeeded : RecoveryBackoff → ℕ → RecoveryBackoff
succeeded b now = record { next = add64 now 30000000; failures = 0 }

unfoldable pub remaining_sec : RecoveryBackoff → ℕ → ℕ
remaining_sec b now = if ltb now b.next then add64 (b.next - now) 999999 / 1000000 else 0

pub record LatencyRenewal : Type 0 where
  pub sample : ℕ
  pub last_attempt : ℕ
  pub streak : ℕ
  pub attempted : Bool

-- One call of `observe`, without the configuration.
pub record Observation : Type 0 where
  pub sample : ℕ
  pub rtt_us : ℤ
  pub now : ℕ
  pub active : Bool

-- threshold_ms, required and cooldown_sec; the last two are not negative in a valid configuration.
pub record Renewal : Type 0 where
  pub threshold_ms : ℤ
  pub required : ℕ
  pub cooldown_sec : ℕ

-- Not (`threshold_ms<=0 || rtt_us<=int64_t(threshold_ms)*1000`).
abbrev pub slow : ℤ → ℤ → Bool
slow (pos t) (pos rtt) = ltb 0 t && ltb (t * 1000) rtt
slow (pos t) (negsuc rtt) = false
slow (negsuc t) rtt = false

unfoldable pub observe : Renewal → LatencyRenewal → Observation → LatencyRenewal × Bool
observe c w o =
    if not o.active
    then (record w { streak = 0; sample = o.sample }, false)
    else if o.sample == 0 || o.sample == w.sample || ltb o.now o.sample
    then (w, false)
    else if ltb 60000000 (o.now - o.sample) || not (slow c.threshold_ms o.rtt_us)
    then (record w { streak = 0; sample = o.sample }, false)
    else if ltb (w.streak + 1) c.required
        || (w.attempted && ltb (sub64 o.now w.last_attempt) (c.cooldown_sec * 1000000 % u64))
    then (record w { streak = w.streak + 1; sample = o.sample }, false)
    else (record { sample = o.sample; last_attempt = o.now; streak = 0; attempted = true }, true)

unfoldable pub reset_samples : LatencyRenewal → LatencyRenewal
reset_samples w = record w { streak = 0; sample = 0 }
