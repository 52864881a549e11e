-- ===== src/Turns/Items.antt =====
-- The items of all flows of cdn/include/pacetun/flow_scheduler.hpp together.
use mathlib.Core.List.{Perm, perm_middle, append_assoc}
use mathlib.Core.List.Perm
use pacetun.Base.{
  ℕ, zero, suc, ◌≡◌, refl, List, [], ◌∷◌, ◌++◌, Bool, true, false, Option, none, some, length,
  length-append, Option-cases, Bool-cases, ◌⊎◌, inl, inr, arith, is_empty,
}
use pacetun.Flow.{PacketFlow, flow_eq}
use pacetun.Turns.{Flow, Cursors, ready_at, pop_at, pop_front, behind, add_item, pick}
use pacetun.Turns.Fair.{NoneReady, pick-none, pick-some, Served-ready}

module _ {ℓ} {A : Type ℓ} where
  abbrev pub items : List (Flow A) → List A
  items [] = []
  items (f ∷ fs) = f.items ++ items fs

  pub add_item-perm :
      (flows : List (Flow A)) (id : PacketFlow) (b : Bool) (x : A)
      → Perm (items (add_item flows id b x)) (x ∷ items flows)
  unfolding add_item
  add_item-perm [] id b x = Perm.refl (x ∷ [])
  add_item-perm (f ∷ fs) id b x = elim (Bool-cases (flow_eq f.id id)) [
    | inl hit ↦ rw (hit, append_assoc) (perm_middle f.items (items fs))
    | inr miss ↦ rw miss (
        Perm.trans (Perm.append_left f.items (add_item-perm fs id b x))
          (perm_middle f.items (items fs)))
  ]

  pub add_item-length :
      (flows : List (Flow A)) (id : PacketFlow) (b : Bool) (x : A)
      → length (items (add_item flows id b x)) ≡ suc (length (items flows))
  unfolding add_item
  add_item-length [] id b x = refl
  add_item-length (f ∷ fs) id b x = elim (Bool-cases (flow_eq f.id id)) [
    | inl hit ↦ rw hit (
        omega (
          arith,
          length-append (f.items ++ x ∷ []) (items fs),
          length-append f.items (x ∷ []),
          length-append f.items (items fs),
        ))
    | inr miss ↦ rw miss (
        omega (
          arith,
          length-append f.items (items (add_item fs id b x)),
          length-append f.items (items fs),
          add_item-length fs id b x,
        ))
  ]

  pub pop_front_inv :
      (f : Flow A) (fs : List (Flow A)) (ys : List A) (x : A) (rest : List (Flow A))
      → pop_front f fs ys ≡ some (x, rest)
      → (xs : List A) × (ys ≡ x ∷ xs) × (rest ≡ record f { items = xs } ∷ fs)
  pop_front_inv f fs [] x rest h = cc
  pop_front_inv f fs (y ∷ ys) x rest h = (ys, ground arith, ground arith)

  pub behind_inv :
      (f : Flow A) (o : Option (A × List (Flow A))) (x : A) (rest : List (Flow A))
      → behind f o ≡ some (x, rest)
      → (fs : List (Flow A)) × (o ≡ some (x, fs)) × (rest ≡ f ∷ fs)
  behind_inv f none x rest h = cc
  behind_inv f (some (y, fs)) x rest h = (fs, ground arith, ground arith)

  pop_front-ready :
      (f : Flow A) (fs : List (Flow A)) (ys : List A)
      → is_empty ys ≡ false
      → (x : A) × (rest : List (Flow A)) × (pop_front f fs ys ≡ some (x, rest))
  pop_front-ready f fs [] h = cc
  pop_front-ready f fs (y ∷ ys) h = (y, record f { items = ys } ∷ fs, refl)

  -- A ready flow has a front item.
  pub pop_at-ready :
      (flows : List (Flow A)) (k : Bool) (i : ℕ)
      → ready_at flows k i ≡ true
      → (x : A) × (rest : List (Flow A)) × (pop_at flows i ≡ some (x, rest))
  unfolding pop_at
  pop_at-ready [] k i h = cc
  pop_at-ready (f ∷ fs) k zero h = pop_front-ready f fs f.items (ground arith)
  pop_at-ready (f ∷ fs) k (suc i) h =
      let (x, rest, e) = pop_at-ready fs k i h in (x, f ∷ rest, rw e)

  pub pop_at-perm :
      (flows : List (Flow A)) (i : ℕ) (x : A) (rest : List (Flow A))
      → pop_at flows i ≡ some (x, rest)
      → Perm (items flows) (x ∷ items rest)
  unfolding pop_at
  pop_at-perm [] i x rest h = cc
  pop_at-perm (f ∷ fs) zero x rest h =
      let (xs, e, r) = pop_front_inv f fs f.items x rest h in
      rw (e, r) (Perm.refl (x ∷ (xs ++ items fs)))
  pop_at-perm (f ∷ fs) (suc i) x rest h =
      let (fs', e, r) = behind_inv f (pop_at fs i) x rest h in
      rw r (
        Perm.trans (Perm.append_left f.items (pop_at-perm fs i x fs' e))
          (perm_middle f.items (items fs')))

  is_empty-nil : (xs : List A) → is_empty xs ≡ true → xs ≡ []
  is_empty-nil [] h = refl
  is_empty-nil (x ∷ xs) h = cc

  pub NoneReady-items :
      (flows : List (Flow A)) → ((k : Bool) → NoneReady flows k) → items flows ≡ []
  NoneReady-items [] h = refl
  NoneReady-items (f ∷ fs) h = rw (
    is_empty-nil f.items (ground (arith, h true 0, h false 0)),
    NoneReady-items fs (λ k i. h k (suc i)),
  )

  -- Either nothing is queued and no turn is given, or the flow chosen has a front item.
  pub pick_cases :
      (flows : List (Flow A)) (c : Cursors)
      → ((pick flows c ≡ none) × (items flows ≡ []))
        ⊎ ((i : ℕ) × (d : Cursors) × (x : A) × (rest : List (Flow A)) × (pick flows c ≡ some (i, d))
            × (pop_at flows i ≡ some (x, rest)))
  pick_cases flows c = elim (Option-cases (pick flows c)) [
    | inl e ↦ inl (e, NoneReady-items flows (pick-none flows c e))
    | inr ((i, d), e) ↦
        let (k, r) = Served-ready flows c i d (pick-some flows c i d e) in
        let (x, rest, p) = pop_at-ready flows k i r in inr (i, d, x, rest, e, p)
  ]

  pub pop_at-length :
      (flows : List (Flow A)) (i : ℕ) (x : A) (rest : List (Flow A))
      → pop_at flows i ≡ some (x, rest)
      → length (items flows) ≡ suc (length (items rest))
  unfolding pop_at
  pop_at-length [] i x rest h = cc
  pop_at-length (f ∷ fs) zero x rest h =
      let (xs, e, r) = pop_front_inv f fs f.items x rest h in rw (e, r) refl
  pop_at-length (f ∷ fs) (suc i) x rest h =
      let (fs', e, r) = behind_inv f (pop_at fs i) x rest h in
      rw r (
        omega (
          arith,
          length-append f.items (items fs),
          length-append f.items (items fs'),
          pop_at-length fs i x fs' e,
        ))
