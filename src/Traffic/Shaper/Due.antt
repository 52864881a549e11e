-- ===== src/Traffic/Shaper/Due.antt =====
-- How long a BurstShaper of cdn/include/pacetun/traffic.hpp makes packets wait.
use pacetun.Base.{
  ℕ, ◌+◌, ◌*◌, ◌≤◌, ◌<◌, ◌≡◌, refl, List, [], ◌∷◌, Bool, true, false, ◌||◌, leb, ◌==◌,
  if◌then◌else◌, add64, add64_lem, u64, All, Bool-cases, inl, inr, arith,
}
use pacetun.Traffic.Shaper.{BurstShaper, bulk, ready}

-- One call of ready for a queue that holds packets.
pub record Poll : Type 0 where
  pub packets : ℕ
  pub age_us : ℕ
  pub draw : ℕ
  pub now : ℕ

abbrev pub answer : ℕ → BurstShaper → Poll → BurstShaper × Bool
answer max_delay_ms s p = ready s p.packets p.age_us max_delay_ms p.draw p.now

-- Every one of the calls says that it is too early.
abbrev pub AllRefused : ℕ → BurstShaper → List Poll → Type 0
AllRefused max_delay_ms s [] = Unit
AllRefused max_delay_ms s (p ∷ ps) =
    ((answer max_delay_ms s p).1 ≡ false) × AllRefused max_delay_ms (answer max_delay_ms s p).0 ps

abbrev pub Holds : Poll → Type 0
Holds p = 0 < p.packets

-- A refusal is before the time that is due, which it keeps.
ready-false :
    (s : BurstShaper) (packets age_us max_delay_ms draw now : ℕ)
    → 0 < packets
    → (ready s packets age_us max_delay_ms draw now).1 ≡ false
    → let due = if s.due == 0 then add64 now draw else s.due in
      (now < due) × ((ready s packets age_us max_delay_ms draw now).0.due ≡ due)
unfolding ready
ready-false s packets age_us max_delay_ms draw now k h = elim (Bool-cases (packets == 0)) [
  | inl nothing ↦ absurd (ground arith)
  | inr some_packets ↦
      elim (Bool-cases
        (max_delay_ms == 0 || leb 8 packets || bulk s now || leb (max_delay_ms * 1000) age_us)) [
          | inl at_once ↦ let h' = rw (some_packets, at_once) at h in absurd (ground arith)
          | inr later ↦ elim (Bool-cases (leb (if s.due == 0 then add64 now draw else s.due) now)) [
            | inl passed ↦ let h' = rw (some_packets, later, passed) at h in absurd (ground arith)
            | inr early ↦ rw (some_packets, later, early) (ground arith, refl)
          ]
        ]
]

due_kept :
    (max_delay_ms limit : ℕ) (s : BurstShaper) (ps : List Poll)
    → 0 < s.due
    → s.due ≤ limit
    → All Holds ps
    → AllRefused max_delay_ms s ps
    → All (λ p. p.now < limit) ps
due_kept max_delay_ms limit s [] a b holds h = tt
due_kept max_delay_ms limit s (p ∷ ps) a b (some_packets, holds) (h, rest) =
    let (early, kept) = ready-false s p.packets p.age_us max_delay_ms p.draw p.now some_packets h in
    let set : (s.due == 0) ≡ false = ground arith in
    let same : (if s.due == 0 then add64 p.now p.draw else s.due) ≡ s.due = rw set refl in
    let next = (answer max_delay_ms s p).0 in
    (
      omega (arith, early, same, b),
      due_kept max_delay_ms limit next ps (omega (arith, kept, same, a))
          (omega (arith, kept, same, b)) holds rest,
    )

-- If a shaper with no time due is asked for a queue that holds packets, with a draw of at most
-- the maximal delay and times within 64 bits, then calls of ready that all answer "too early",
-- the queue holding packets at each, are all before the time of the first one plus the maximal
-- delay.
pub ready_in_time :
    (max_delay_ms : ℕ) (s : BurstShaper) (p : Poll) (ps : List Poll)
    → s.due ≡ 0
    → p.now + max_delay_ms * 1000 < u64
    → p.draw ≤ max_delay_ms * 1000
    → All Holds (p ∷ ps)
    → AllRefused max_delay_ms s (p ∷ ps)
    → All (λ q. q.now < p.now + max_delay_ms * 1000) (p ∷ ps)
ready_in_time max_delay_ms s p ps zero_due small drawn (some_packets, holds) (h, rest) =
    let (early, kept) = ready-false s p.packets p.age_us max_delay_ms p.draw p.now some_packets h in
    let unset : (s.due == 0) ≡ true = ground arith in
    let set : (if s.due == 0 then add64 p.now p.draw else s.due) ≡ add64 p.now p.draw =
      rw unset refl in
    let sum = add64_lem p.now p.draw (omega (arith, small, drawn)) in
    let next = (answer max_delay_ms s p).0 in
    (
      omega (arith, early, set, sum, drawn),
      due_kept max_delay_ms (p.now + max_delay_ms * 1000) next ps (omega (arith, kept, set, early))
          (omega (arith, kept, set, sum, drawn)) holds rest,
    )
