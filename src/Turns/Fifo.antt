-- ===== src/Turns/Fifo.antt =====
-- The items of one key in the flows of cdn/include/pacetun/flow_scheduler.hpp. `owner` gives the
-- key of an item.
use pacetun.Base.{
  ℕ, zero, suc, ◌≡◌, ◌≢◌, refl, sym, subst, ◌∙◌, List, [], ◌∷◌, ◌++◌, Bool, some, All, All-append,
  if◌then◌else◌, Bool-cases, inl, inr,
}
use pacetun.Flow.{PacketFlow, flow_eq, list_eq}
use pacetun.Flow.Key.{key, IsKey, flow_eq_iff, list_eq_iff}
use pacetun.Turns.{Flow, pop_at, add_item}
use pacetun.Turns.Items.{items, pop_front_inv, behind_inv}
use mathlib.Core.List.{append_assoc, append-nil}

-- The sublist on which a test holds.
abbrev pub keep {ℓ} : {A : Type ℓ} → (A → Bool) → List A → List A
keep p [] = []
keep p (x ∷ xs) = if p x then x ∷ keep p xs else keep p xs

pub keep-append {ℓ} :
    {A : Type ℓ} (p : A → Bool) (xs ys : List A) → keep p (xs ++ ys) ≡ keep p xs ++ keep p ys
keep-append p [] ys = refl
keep-append p (x ∷ xs) ys = elim (Bool-cases (p x)) [
  | inl yes_x ↦ rw (yes_x, keep-append p xs ys) refl
  | inr no_x ↦ rw (no_x, keep-append p xs ys) refl
]

module _ {ℓ} {A : Type ℓ} (owner : A → List ℕ) where
  -- Every item lies in the flow of its key.
  abbrev pub Owned : List (Flow A) → Type ℓ
  Owned [] = Unit
  Owned (f ∷ fs) = (IsKey f.id × All (λ x. owner x ≡ key f.id) f.items) × Owned fs

-- No flow has key `k`; no two flows have one key.
abbrev pub Absent {ℓ} : {A : Type ℓ} → List ℕ → List (Flow A) → Type 0
Absent k [] = Unit
Absent k (f ∷ fs) = (key f.id ≢ k) × Absent k fs

abbrev pub Distinct {ℓ} : {A : Type ℓ} → List (Flow A) → Type 0
Distinct [] = Unit
Distinct (f ∷ fs) = Absent (key f.id) fs × Distinct fs

module _ {ℓ} {A : Type ℓ} (owner : A → List ℕ) where
  -- The items of one key, in the order in which they will leave.
  abbrev pub of_key : List ℕ → List A → List A
  of_key k = keep (λ x. list_eq (owner x) k)

  pub of_key-append :
      (k : List ℕ) (xs ys : List A) → of_key k (xs ++ ys) ≡ of_key k xs ++ of_key k ys
  of_key-append k xs ys = keep-append (λ x. list_eq (owner x) k) xs ys

  pub of_key-All : (k : List ℕ) (xs : List A) → All (λ x. owner x ≡ k) xs → of_key k xs ≡ xs
  of_key-All k [] h = refl
  of_key-All k (x ∷ xs) h = rw ((list_eq_iff (owner x) k).1 h.0, of_key-All k xs h.1) refl

  pub of_key_none :
      (k j : List ℕ) (xs : List A) → All (λ x. owner x ≡ j) xs → j ≢ k → of_key k xs ≡ []
  of_key_none k j [] h ne = refl
  of_key_none k j (x ∷ xs) h ne = elim (Bool-cases (list_eq (owner x) k)) [
    | inl hit ↦ absurd (ne (sym h.0 ∙ (list_eq_iff (owner x) k).0 hit))
    | inr miss ↦ rw miss (of_key_none k j xs h.1 ne)
  ]

  pub of_key-Absent :
      (k : List ℕ) (flows : List (Flow A))
      → Owned owner flows
      → Absent k flows
      → of_key k (items flows) ≡ []
  of_key-Absent k [] o a = refl
  of_key-Absent k (f ∷ fs) o a =
      rw
        (
          keep-append (λ x. list_eq (owner x) k) f.items (items fs),
          of_key_none k (key f.id) f.items o.0.1 a.0,
        )
        (of_key-Absent k fs o.1 a.1)

  -- The item popped is the first of its key.
  pub pop_at-Owned :
      (flows : List (Flow A)) (i : ℕ) (x : A) (rest : List (Flow A))
      → pop_at flows i ≡ some (x, rest)
      → Owned owner flows
      → Distinct flows
      → Owned owner rest
        × Distinct rest
        × ((k : List ℕ) → Absent k flows → Absent k rest × (owner x ≢ k))
  unfolding pop_at
  pop_at-Owned [] i x rest h o d = cc
  pop_at-Owned (f ∷ fs) zero x rest h o d =
      let (xs, e, r) = pop_front_inv f fs f.items x rest h in
      let own = rw e at o.0.1 in
      rw r (((o.0.0, own.1), o.1), d, λ k a. (a, λ q. a.0 (sym own.0 ∙ q)))
  pop_at-Owned (f ∷ fs) (suc i) x rest h o d =
      let (fs', e, r) = behind_inv f (pop_at fs i) x rest h in
      let (o', d', keeps) = pop_at-Owned fs i x fs' e o.1 d.1 in
      rw r (
        (o.0, o'),
        ((keeps (key f.id) d.0).0, d'),
        λ k a. ((a.0, (keeps k a.1).0), (keeps k a.1).1),
      )

  -- The item popped is the first of its key.
  pub pop_at-of_key :
      (k : List ℕ) (flows : List (Flow A)) (i : ℕ) (x : A) (rest : List (Flow A))
      → pop_at flows i ≡ some (x, rest)
      → Owned owner flows
      → Distinct flows
      → of_key k (items flows) ≡ of_key k (x ∷ items rest)
  unfolding pop_at
  pop_at-of_key k [] i x rest h o d = cc
  pop_at-of_key k (f ∷ fs) zero x rest h o d =
      let (xs, e, r) = pop_front_inv f fs f.items x rest h in rw (e, r) refl
  pop_at-of_key k (f ∷ fs) (suc i) x rest h o d =
      let (fs', e, r) = behind_inv f (pop_at fs i) x rest h in
      let p = λ (y : A). list_eq (owner y) k in
      let later = pop_at-of_key k fs i x fs' e o.1 d.1 in
      let other = (pop_at-Owned fs i x fs' e o.1 d.1).2 (key f.id) d.0 in
      rw (r, keep-append p f.items (items fs), keep-append p f.items (items fs'), later)
        (elim (Bool-cases (list_eq (owner x) k)) [
          | inl hit ↦
              rw
                (
                  hit,
                  of_key_none k (key f.id) f.items o.0.1
                      (λ q. other.1 ((list_eq_iff (owner x) k).0 hit ∙ sym q)),
                )
                refl
          | inr miss ↦ rw miss refl
        ])

  add_item-Absent :
      (k : List ℕ) (flows : List (Flow A)) (id : PacketFlow) (b : Bool) (x : A)
      → Absent k flows
      → key id ≢ k
      → Absent k (add_item flows id b x)
  unfolding add_item
  add_item-Absent k [] id b x a ne = (ne, tt)
  add_item-Absent k (f ∷ fs) id b x a ne = elim (Bool-cases (flow_eq f.id id)) [
    | inl hit ↦ rw hit a
    | inr miss ↦ rw miss (a.0, add_item-Absent k fs id b x a.1 ne)
  ]

  pub add_item-Owned :
      (flows : List (Flow A)) (id : PacketFlow) (b : Bool) (x : A)
      → IsKey id
      → owner x ≡ key id
      → Owned owner flows
      → Distinct flows
      → Owned owner (add_item flows id b x) × Distinct (add_item flows id b x)
  unfolding add_item
  add_item-Owned [] id b x v e o d = (((v, (e, tt)), tt), (tt, tt))
  add_item-Owned (f ∷ fs) id b x v e o d = elim (Bool-cases (flow_eq f.id id)) [
    | inl hit ↦
        let same_key = (flow_eq_iff f.id id o.0.0 v).0 hit in
        rw hit (((o.0.0, All-append _ f.items (x ∷ []) o.0.1 (e ∙ sym same_key, tt)), o.1), d)
    | inr miss ↦
        let (o', d') = add_item-Owned fs id b x v e o.1 d.1 in
        rw miss (
          (o.0, o'),
          (
            add_item-Absent (key f.id) fs id b x d.0
                (λ q. cc (miss, (flow_eq_iff f.id id o.0.0 v).1 (sym q))),
            d',
          ),
        )
  ]

  -- The item added is the last of its key.
  pub add_item-of_key :
      (k : List ℕ) (flows : List (Flow A)) (id : PacketFlow) (b : Bool) (x : A)
      → IsKey id
      → owner x ≡ key id
      → Owned owner flows
      → Distinct flows
      → of_key k (items (add_item flows id b x)) ≡ of_key k (items flows) ++ of_key k (x ∷ [])
  unfolding add_item
  add_item-of_key k [] id b x v e o d = refl
  add_item-of_key k (f ∷ fs) id b x v e o d =
      let p = λ (y : A). list_eq (owner y) k in
      elim (Bool-cases (flow_eq f.id id)) [
        | inr miss ↦
            rw
              (
                miss,
                keep-append p f.items (items (add_item fs id b x)),
                keep-append p f.items (items fs),
                add_item-of_key k fs id b x v e o.1 d.1,
                append_assoc,
              )
              refl
        | inl hit ↦ rw hit (elim (Bool-cases (list_eq (owner x) k)) [
          | inl mine ↦
              let same_key =
                (flow_eq_iff f.id id o.0.0 v).0 hit ∙ sym e ∙ (list_eq_iff (owner x) k).0 mine in
              rw
                (
                  keep-append p (f.items ++ x ∷ []) (items fs),
                  keep-append p f.items (x ∷ []),
                  keep-append p f.items (items fs),
                  of_key-Absent k fs o.1 (subst (λ j. Absent j fs) same_key d.0),
                  append-nil,
                  append-nil,
                )
                refl
          | inr others ↦
              rw
                (
                  keep-append p (f.items ++ x ∷ []) (items fs),
                  keep-append p f.items (x ∷ []),
                  keep-append p f.items (items fs),
                  others,
                  append-nil,
                  append-nil,
                )
                refl
        ])
      ]
