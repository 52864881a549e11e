-- ===== src/Traffic/Delay.antt =====
-- About the delays of RecoveryBackoff, cdn/include/pacetun/traffic.hpp.
use pacetun.Base.{
  ℕ, zero, suc, ◌+◌, ◌-◌, ltb, Bool-cases, inl, inr, ◌∙◌, ◌*◌, ◌^◌, ◌≤◌, ◌<◌, ◌≡◌, ◌↔◌, refl, List,
  [], ◌∷◌, true, min, u64, add64, add64_lem, length, arith,
}
use native.Mathlib.Nat.{pow-le-pow_right}
use pacetun.Traffic.{RecoveryBackoff, ready, failed, succeeded, remaining_sec}

abbrev pub fails : RecoveryBackoff → List ℕ → RecoveryBackoff
fails b [] = b
fails b (t ∷ ts) = fails (failed b t) ts

fails-failures :
    (b : RecoveryBackoff) (ts : List ℕ)
    → b.failures ≤ 5
    → (fails b ts).failures ≡ min 5 (b.failures + length ts)
unfolding failed
fails-failures b [] h = omega arith
fails-failures b (t ∷ ts) h = fails-failures (failed b t) ts (omega arith) ∙ omega arith

-- From the fifth failure on the delay is the largest.
delay-capped : (n : ℕ) → min 300 (30 * 2 ^ (min 5 (min 5 n + 1) - 1)) ≡ min 300 (30 * 2 ^ n)
delay-capped zero = refl
delay-capped (suc zero) = refl
delay-capped (suc (suc zero)) = refl
delay-capped (suc (suc (suc zero))) = refl
delay-capped (suc (suc (suc (suc n)))) =
    let m : ℕ = suc (suc (suc (suc n))) in
    let e : min 5 (min 5 m + 1) - 1 ≡ 4 = omega arith in
    let low : 4 ≤ m = omega arith in
    let p : 16 ≤ 2 ^ m = pow-le-pow_right {n = 2} (omega arith) {i = 4} {j = m} low in
    rw e (omega (arith, p))

-- After a success and a number of failures, one more failure at a time that leaves 300 seconds of
-- 64-bit range makes the next attempt ready exactly after 30 seconds, doubled for each failure
-- before it and capped at 300 seconds.
pub ready-failed :
    (b : RecoveryBackoff) (now : ℕ) (times : List ℕ) (t at : ℕ)
    → t + 300000000 < u64
    → (ready (failed (fails (succeeded b now) times) t) at ≡ true)
      ↔ (t + min 300 (30 * 2 ^ length times) * 1000000 ≤ at)
unfolding ready failed succeeded
ready-failed b now times t at h =
    let n = fails-failures (succeeded b now) times (omega arith) in
    let d = delay-capped (length times) in
    let k : (fails (succeeded b now) times).failures ≡ min 5 (length times) = omega (arith, n) in
    let x = min 300 (30 * 2 ^ length times) * 1000000 in
    let sum : add64 t x ≡ t + x = add64_lem t x (omega arith) in rw (k, d, sum) (ground arith)

-- If the time of the next attempt leaves 999999 of 64-bit range, no second remains exactly when
-- the backoff is ready, and it is ready when the seconds that remain are over.
pub remaining_sec-ready :
    (b : RecoveryBackoff) (now : ℕ)
    → b.next + 999999 < u64
    → ((remaining_sec b now ≡ 0) ↔ (ready b now ≡ true))
      × (ready b (now + remaining_sec b now * 1000000) ≡ true)
unfolding remaining_sec ready
remaining_sec-ready b now h = elim (Bool-cases (ltb now b.next)) [
  | inl early ↦
      let e = add64_lem (b.next - now) 999999 (ground arith) in rw (early, e) (ground arith)
  | inr late ↦ rw late (ground arith)
]
