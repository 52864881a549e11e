-- ===== src/Turns/Order.antt =====
-- About the closure `take` of the schedulers in cdn/include/pacetun/flow_scheduler.hpp.
use pacetun.Base.{
  ℕ, zero, suc, ◌+◌, ◌-◌, ◌%◌, ◌≤◌, ◌<◌, ◌≡◌, sym, ap, ◌∙◌, inl, inr, List, [], ◌∷◌, Bool, true,
  false, none, some, length, Bool-cases, arith,
}
use pacetun.Turns.{Flow, ready_at, scan, take_turn}
use native.Mathlib.Nat.{mod-lt, mod-eq_of_lt, mod-add-mod, mod-eq-sub-mod}
use native.Mathlib.Decide.{dec_le, ℕ_discrete}

-- Every index lies on the circle.
pub circle : (n c i : ℕ) → i < n → (v : ℕ) × (v < n) × ((c + v) % n ≡ i)
circle n c i h =
    let r : ℕ = c % n in
    let r_lt : r < n = mod-lt c (omega arith) in
    elim (dec_le r i) [
      | yes behind ↦
          let v : ℕ = i - r in
          (v, omega arith, sym (mod-add-mod c n v) ∙ ap (λ x. x % n) (omega arith) ∙ mod-eq_of_lt h)
      | no ahead ↦
          let v : ℕ = i + n - r in
          let over : r + v ≡ n + i = omega arith in
          (
            v,
            omega arith,
            sym (mod-add-mod c n v)
                ∙ ap (λ x. x % n) over
                ∙ mod-eq-sub-mod (omega arith)
                ∙ ap (λ x. x % n) (omega arith)
                ∙ mod-eq_of_lt h,
          )
    ]

module _ {ℓ} {A : Type ℓ} (flows : List (Flow A)) (k : Bool) (c : ℕ) where
  -- What the loop answers from `visited` on.
  pub scan-some :
      (left visited i : ℕ)
      → scan flows k c visited left ≡ some i
      → (v : ℕ) × (visited ≤ v)
        × (v < visited + left)
        × ((c + v) % length flows ≡ i)
        × (ready_at flows k i ≡ true)
        × ((w : ℕ) → visited ≤ w → w < v → ready_at flows k ((c + w) % length flows) ≡ false)
  unfolding scan
  scan-some zero visited i e = cc
  scan-some (suc left) visited i e =
      elim (Bool-cases (ready_at flows k ((c + visited) % length flows))) [
        | inl hit ↦ (
          visited,
          omega arith,
          omega arith,
          ground arith,
          ground arith,
          λ w h l. absurd (omega arith),
        )
        | inr miss ↦
            let (v, lo, hi, at_v, found, before) = scan-some left (visited + 1) i (ground arith) in
            (
              v,
              omega arith,
              omega arith,
              at_v,
              found,
              λ w h l. elim (ℕ_discrete w visited) [
                | yes now ↦ rw now miss
                | no later ↦ before w (omega arith) l
              ],
            )
      ]

  pub scan-none :
      (left visited : ℕ)
      → scan flows k c visited left ≡ none
      → (w : ℕ) → visited ≤ w
      → w < visited + left
      → ready_at flows k ((c + w) % length flows) ≡ false
  unfolding scan
  scan-none zero visited e w h l = absurd (omega arith)
  scan-none (suc left) visited e w h l = elim (ℕ_discrete w visited) [
    | yes now ↦ rw now (ground arith)
    | no later ↦ scan-none left (visited + 1) (ground arith) w (omega arith) (omega arith)
  ]

  pub ready_at-lt : (fs : List (Flow A)) (i : ℕ) → ready_at fs k i ≡ true → i < length fs
  ready_at-lt [] i e = cc
  ready_at-lt (f ∷ fs) zero e = omega arith
  ready_at-lt (f ∷ fs) (suc i) e = omega (arith, ready_at-lt fs i e)

  -- A turn is refused only if no flow is ready.
  pub take_turn-none : (i : ℕ) → take_turn flows k c ≡ none → ready_at flows k i ≡ false
  unfolding take_turn
  take_turn-none i e = elim (Bool-cases (ready_at flows k i)) [
    | inr miss ↦ miss
    | inl hit ↦
        let (v, lt, at_v) = circle (length flows) c i (ready_at-lt flows i hit) in
        rw at_v at (scan-none (length flows) 0 (ground arith) v (omega arith) (omega arith))
  ]

  -- A turn goes to the first ready flow on the circle from the cursor, and the cursor moves behind it.
  pub take_turn-some :
      (i d : ℕ)
      → take_turn flows k c ≡ some (i, d)
      → (ready_at flows k i ≡ true)
        × (d ≡ (i + 1) % length flows)
        × ((v : ℕ) × (v < length flows)
            × ((c + v) % length flows ≡ i)
            × ((w : ℕ) → w < v → ready_at flows k ((c + w) % length flows) ≡ false))
  unfolding take_turn
  take_turn-some i d e =
      let (v, lo, hi, at_v, found, before) = scan-some (length flows) 0 i (ground arith) in
      (found, ground arith, (v, omega arith, at_v, λ w l. before w (omega arith) l))
