-- ===== src/Tests/Lanes.antt =====
-- Lanes, clocks, edges and admission on concrete inputs.
use pacetun.Base.{
  ℕ, ◌*◌, ◌<◌, ◌≡◌, refl, List, [], ◌∷◌, ◌++◌, true, false, some, length, All, inl, inr, ◌+◌, ◌≤◌,
  arith,
}
use pacetun.Base.Int.{pos}
use pacetun.Flow.Key.{flow_key}
use pacetun.Pool.{cap, contains, choose}
use pacetun.Pool.Run.{Call, call, calls, Spares, choose_sticks}
use pacetun.Traffic.{ReplyWatchdog, RecoveryBackoff, LatencyRenewal, Observation, Renewal}
use pacetun.Traffic.Deadline.{probe, pong, steps, steps-same}
use pacetun.Traffic.Spacing.{renewals, Spaced, renewals-Spaced}
use pacetun.Edge.{edge_address_index, edge_address_index_covers}
use pacetun.Admission.{Limits, Server, new_server, accept_one, begin, finish, take_ready}
use pacetun.Admission.Claims.{
  accepts, begins, finishes, takes, Reached, begun, later, IsValid, Reached-IsValid,
}

abbrev datagram : List ℕ
datagram =
    69 ∷ 0 ∷ 0 ∷ 28 ∷ 0 ∷ 0 ∷ 0 ∷ 0 ∷ 64 ∷ 17 ∷ 0 ∷ 0 ∷ 10 ∷ 0 ∷ 0 ∷ 1 ∷ 10 ∷ 0 ∷ 0 ∷ 2 ∷ 0 ∷ 7 ∷ 0
    ∷ 53 ∷ 0 ∷ 8 ∷ 0 ∷ 0 ∷ []

abbrev of_port : ℕ → List ℕ
of_port p =
    69 ∷ 0 ∷ 0 ∷ 28 ∷ 0 ∷ 0 ∷ 0 ∷ 0 ∷ 64 ∷ 17 ∷ 0 ∷ 0 ∷ 10 ∷ 0 ∷ 0 ∷ 1 ∷ 10 ∷ 0 ∷ 0 ∷ 2 ∷ 0 ∷ p ∷ 0
    ∷ 53 ∷ 0 ∷ 8 ∷ 0 ∷ 0 ∷ []

abbrev first_call : Call
first_call = record { packet = datagram; live_ids = 3 ∷ 4 ∷ []; now = 5; preferred = 4 }

-- Another flow is given lane 9, and the first one is seen again with other lanes live.
abbrev two_between : List Call
two_between =
    record { packet = of_port 8; live_ids = 9 ∷ []; now = 6; preferred = 0 }
    ∷ record { packet = datagram; live_ids = 2 ∷ 4 ∷ []; now = 7; preferred = 2 }
    ∷ []

abbrev last_call : Call
last_call = record { packet = datagram ++ (1 ∷ []); live_ids = 9 ∷ 4 ∷ []; now = 8; preferred = 9 }

lane_four : (call [] first_call).1 ≡ 4
unfolding choose
lane_four = refl

one_flow : length (call [] first_call).0 + 2 ≤ cap
unfolding choose
one_flow = omega arith

two_spare : All (Spares datagram (call [] first_call).1) two_between
unfolding choose flow_key contains
two_spare = (inl (λ e. cc), (inr refl, tt))

same_flow : flow_key (datagram ++ (1 ∷ [])) ≡ flow_key datagram
unfolding flow_key
same_flow = refl

four_live : contains (call [] first_call).1 (9 ∷ 4 ∷ []) ≡ true
unfolding choose contains
four_live = refl

choose_sticks_example :
    (call (calls (call [] first_call).0 two_between) last_call).1 ≡ (call [] first_call).1
choose_sticks_example =
    choose_sticks [] first_call two_between last_call refl one_flow two_spare same_flow four_live

abbrev watchdog : ReplyWatchdog
watchdog = record { token = 100 }

steps-same_example :
    steps watchdog (pong 90 110 ∷ probe 120 ∷ pong 120 130 ∷ pong 100 99 ∷ []) ≡ watchdog
steps-same_example =
    steps-same watchdog (pong 90 110 ∷ probe 120 ∷ pong 120 130 ∷ pong 100 99 ∷ []) (omega arith)
      (refl, (refl, (refl, (refl, tt))))

abbrev backoff : RecoveryBackoff
backoff = record { next = 2500000; failures = 1 }

abbrev renewal : Renewal
renewal = record { threshold_ms = pos 100; required = 1; cooldown_sec = 10 }

abbrev slow_at : ℕ → Observation
slow_at t = record { sample = t; rtt_us = pos 200000; now = t; active = true }

abbrev fresh_renewal : LatencyRenewal
fresh_renewal = record { sample = 0; last_attempt = 0; streak = 0; attempted = false }

renewals-Spaced_example :
    Spaced
      (10 * 1000000)
      (false, 0)
      (renewals renewal fresh_renewal (slow_at 1000000 ∷ slow_at 2000000 ∷ slow_at 11000000 ∷ []))
renewals-Spaced_example =
    renewals-Spaced renewal fresh_renewal 0
      (slow_at 1000000 ∷ slow_at 2000000 ∷ slow_at 11000000 ∷ []) (omega arith) (omega arith)
      (omega arith, omega arith, (omega arith, omega arith, (omega arith, omega arith, tt)))

edge_address_index_covers_example :
    (attempt : ℕ) × (attempt < 3) × (edge_address_index 3 8 attempt true ≡ some 1)
edge_address_index_covers_example = edge_address_index_covers 3 8 1 true (omega arith)

abbrev limits : Limits
limits = record { workers = 2; limit = 1; max_active = 2 }

-- One socket is accepted, upgraded without confirmation, and taken.
abbrev at_work : Server
at_work = begin (accept_one limits new_server 7)

abbrev served : Server
served = finish limits at_work 7 [] (some false)

at_work-working : at_work.working ≡ 7 ∷ []
unfolding begin accept_one new_server
at_work-working = refl

idle_workers : length (accept_one limits new_server 7).working < 2
unfolding accept_one new_server
idle_workers = omega arith

served-Reached : Reached limits (take_ready served).0
served-Reached =
    later
      (later
        (later (later begun (accepts new_server 7))
          (begins (accept_one limits new_server 7) idle_workers))
        (finishes at_work 7 [] [] (some false) at_work-working))
      (takes served)

Reached-IsValid_example : IsValid limits (take_ready served).0
Reached-IsValid_example = Reached-IsValid limits (take_ready served).0 served-Reached
