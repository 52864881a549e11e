-- ===== src/Traffic/Spacing.antt =====
-- About the times of renewals of LatencyRenewal, cdn/include/pacetun/traffic.hpp.
use pacetun.Base.{
  ℕ, ◌+◌, ◌*◌, ◌≤◌, ◌<◌, ◌≡◌, subst, List, [], ◌∷◌, Bool, true, false, u64, sub64_lem, Bool-cases,
  inl, inr, arith, if◌then◌else◌,
}
use pacetun.Traffic.{LatencyRenewal, Observation, Renewal, observe}

-- The times at which a run of observations answers true.
abbrev pub renewals : Renewal → LatencyRenewal → List Observation → List ℕ
renewals c w [] = []
renewals c w (o ∷ os) =
    let rest = renewals c (observe c w o).0 os in if (observe c w o).1 then o.now ∷ rest else rest

-- The clock does not run backwards.
abbrev pub Clock : ℕ → List Observation → Type 0
Clock t [] = Unit
Clock t (o ∷ os) = (t ≤ o.now) × (o.now < u64) × Clock o.now os

abbrev pub Spaced : ℕ → Bool × ℕ → List ℕ → Type 0
Spaced gap p [] = Unit
Spaced gap p (t ∷ ts) = (p.0 ≡ true → p.1 + gap ≤ t) × Spaced gap (true, t) ts

pair_eq :
    {a b : Bool} {m n : ℕ}
    → a ≡ b
    → m ≡ n
    → let p : Bool × ℕ = (a, m) in let q : Bool × ℕ = (b, n) in p ≡ q
pair_eq e f = cc

observe-renewed :
    (c : Renewal) (w : LatencyRenewal) (o : Observation)
    → c.cooldown_sec * 1000000 < u64
    → w.last_attempt ≤ o.now
    → o.now < u64
    → (observe c w o).1 ≡ true
    → (w.attempted ≡ true → w.last_attempt + c.cooldown_sec * 1000000 ≤ o.now)
      × ((observe c w o).0.attempted ≡ true)
      × ((observe c w o).0.last_attempt ≡ o.now)
unfolding observe
observe-renewed c w o hc hl hn h = ground (arith, sub64_lem o.now w.last_attempt hl hn)

observe-same :
    (c : Renewal) (w : LatencyRenewal) (o : Observation)
    → (observe c w o).1 ≡ false
    → ((observe c w o).0.attempted ≡ w.attempted)
      × ((observe c w o).0.last_attempt ≡ w.last_attempt)
unfolding observe
observe-same c w o h = ground arith

-- If the cooldown fits in 64 bits, the clock does not run backwards and the last renewal is not
-- in the future, the renewals of any run of observations are at least the cooldown apart, from
-- each other and from one made before.
pub renewals-Spaced :
    (c : Renewal) (w : LatencyRenewal) (t : ℕ) (os : List Observation)
    → c.cooldown_sec * 1000000 < u64
    → w.last_attempt ≤ t
    → Clock t os
    → Spaced (c.cooldown_sec * 1000000) (w.attempted, w.last_attempt) (renewals c w os)
renewals-Spaced c w t [] hc hl k = tt
renewals-Spaced c w t (o ∷ os) hc hl (a, b, k) =
    let gap = c.cooldown_sec * 1000000 in
    let v = (observe c w o).0 in
    elim (Bool-cases (observe c w o).1) [
      | inl renewed ↦
          let (spaced, att, last) = observe-renewed c w o hc (omega arith) b renewed in
          let rest = renewals-Spaced c v o.now os hc (omega arith) k in
          rw renewed (spaced, subst (λ p. Spaced gap p (renewals c v os)) (pair_eq att last) rest)
      | inr waits ↦
          let (att, last) = observe-same c w o waits in
          let rest = renewals-Spaced c v o.now os hc (omega arith) k in
          rw waits (subst (λ p. Spaced gap p (renewals c v os)) (pair_eq att last) rest)
    ]
