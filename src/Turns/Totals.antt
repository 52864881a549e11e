-- ===== src/Turns/Totals.antt =====
-- Sums over the items of the flows of cdn/include/pacetun/flow_scheduler.hpp, and predicates on
-- them.
use pacetun.Base.{
  ℕ, zero, suc, ◌+◌, ◌≤◌, ◌≡◌, refl, List, [], ◌∷◌, ◌++◌, Bool, some, length, All, All-append,
  Bool-cases, inl, inr, arith,
}
use pacetun.Flow.{PacketFlow, flow_eq}
use pacetun.Turns.{Flow, pop_at, add_item}
use pacetun.Turns.Items.{items, pop_front_inv, behind_inv}

module _ {ℓ} {A : Type ℓ} where
  -- The sum of a weight.
  abbrev pub total : (A → ℕ) → List A → ℕ
  total w [] = 0
  total w (x ∷ xs) = w x + total w xs

  pub total-append : (w : A → ℕ) (xs ys : List A) → total w (xs ++ ys) ≡ total w xs + total w ys
  total-append w [] ys = omega arith
  total-append w (x ∷ xs) ys = omega (arith, total-append w xs ys)

  pub add_item-total :
      (w : A → ℕ) (flows : List (Flow A)) (id : PacketFlow) (b : Bool) (x : A)
      → total w (items (add_item flows id b x)) ≡ total w (items flows) + w x
  unfolding add_item
  add_item-total w [] id b x = omega arith
  add_item-total w (f ∷ fs) id b x = elim (Bool-cases (flow_eq f.id id)) [
    | inl hit ↦ rw hit (
        omega (
          arith,
          total-append w (f.items ++ x ∷ []) (items fs),
          total-append w f.items (x ∷ []),
          total-append w f.items (items fs),
        ))
    | inr miss ↦ rw miss (
        omega (
          arith,
          total-append w f.items (items (add_item fs id b x)),
          total-append w f.items (items fs),
          add_item-total w fs id b x,
        ))
  ]

  pub pop_at-total :
      (w : A → ℕ) (flows : List (Flow A)) (i : ℕ) (x : A) (rest : List (Flow A))
      → pop_at flows i ≡ some (x, rest)
      → total w (items flows) ≡ w x + total w (items rest)
  unfolding pop_at
  pop_at-total w [] i x rest h = cc
  pop_at-total w (f ∷ fs) zero x rest h =
      let (xs, e, r) = pop_front_inv f fs f.items x rest h in rw (e, r) refl
  pop_at-total w (f ∷ fs) (suc i) x rest h =
      let (fs', e, r) = behind_inv f (pop_at fs i) x rest h in
      rw r (
        omega (
          arith,
          total-append w f.items (items fs),
          total-append w f.items (items fs'),
          pop_at-total w fs i x fs' e,
        ))

  -- A predicate on every item, flow by flow.
  abbrev pub Each {κ} : (A → Type κ) → List (Flow A) → Type κ
  Each P [] = Unit {κ}
  Each P (f ∷ fs) = All P f.items × Each P fs

  pub add_item-Each {κ} :
      (P : A → Type κ) (flows : List (Flow A)) (id : PacketFlow) (b : Bool) (x : A)
      → P x
      → Each P flows
      → Each P (add_item flows id b x)
  unfolding add_item
  add_item-Each P [] id b x h e = ((h, tt), tt)
  add_item-Each P (f ∷ fs) id b x h e = elim (Bool-cases (flow_eq f.id id)) [
    | inl hit ↦ rw hit (All-append P f.items (x ∷ []) e.0 (h, tt), e.1)
    | inr miss ↦ rw miss (e.0, add_item-Each P fs id b x h e.1)
  ]

  pub pop_at-Each {κ} :
      (P : A → Type κ) (flows : List (Flow A)) (i : ℕ) (x : A) (rest : List (Flow A))
      → pop_at flows i ≡ some (x, rest)
      → Each P flows
      → P x × Each P rest
  unfolding pop_at
  pop_at-Each P [] i x rest h e = cc
  pop_at-Each P (f ∷ fs) zero x rest h e =
      let (xs, q, r) = pop_front_inv f fs f.items x rest h in
      let own = rw q at e.0 in rw r (own.0, (own.1, e.1))
  pop_at-Each P (f ∷ fs) (suc i) x rest h e =
      let (fs', q, r) = behind_inv f (pop_at fs i) x rest h in
      let (px, each) = pop_at-Each P fs i x fs' q e.1 in rw r (px, (e.0, each))

  pub length-add_item :
      (flows : List (Flow A)) (id : PacketFlow) (b : Bool) (x : A)
      → length (add_item flows id b x) ≤ length flows + 1
  unfolding add_item
  length-add_item [] id b x = omega arith
  length-add_item (f ∷ fs) id b x = elim (Bool-cases (flow_eq f.id id)) [
    | inl hit ↦ rw hit (omega arith)
    | inr miss ↦ rw miss (omega (arith, length-add_item fs id b x))
  ]

  pub length-pop_at :
      (flows : List (Flow A)) (i : ℕ) (x : A) (rest : List (Flow A))
      → pop_at flows i ≡ some (x, rest)
      → length rest ≡ length flows
  unfolding pop_at
  length-pop_at [] i x rest h = cc
  length-pop_at (f ∷ fs) zero x rest h =
      let (xs, q, r) = pop_front_inv f fs f.items x rest h in rw r refl
  length-pop_at (f ∷ fs) (suc i) x rest h =
      let (fs', q, r) = behind_inv f (pop_at fs i) x rest h in
      rw r (omega (arith, length-pop_at fs i x fs' q))
