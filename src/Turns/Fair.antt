-- ===== src/Turns/Fair.antt =====
-- The turn rules of the schedulers in cdn/include/pacetun/flow_scheduler.hpp.
use pacetun.Base.{
  ℕ, ◌+◌, ◌≤◌, ◌<◌, ◌≡◌, ◌⊎◌, inl, inr, List, Bool, true, false, none, some, Option-cases,
  Bool-cases, ltb, arith,
}
use pacetun.Turns.{Flow, Cursors, ready_at, take_turn, pick}
use pacetun.Turns.Order.{take_turn-none, take_turn-some}

abbrev pub NoneReady {ℓ} : {A : Type ℓ} → List (Flow A) → Bool → Type 0
NoneReady flows k = (i : ℕ) → ready_at flows k i ≡ false

-- The turn went to interactive flow `i`, or to bulk flow `i`.
abbrev pub Served {ℓ} : {A : Type ℓ} → List (Flow A) → Cursors → ℕ → Cursors → Type 0
Served flows c i d =
    ((ready_at flows true i ≡ true)
      × (((c.interactive_turns < 2) × (d.interactive_turns ≡ c.interactive_turns + 1))
          ⊎ (NoneReady flows false × (d.interactive_turns ≡ 1))))
    ⊎ ((ready_at flows false i ≡ true)
        × (d.interactive_turns ≡ 0)
        × ((2 ≤ c.interactive_turns) ⊎ NoneReady flows true))

module _ {ℓ} {A : Type ℓ} (flows : List (Flow A)) (c : Cursors) where
  pub pick-none : pick flows c ≡ none → (k : Bool) → NoneReady flows k
  unfolding pick
  pick-none e true i = ground (arith, take_turn-none flows true c.interactive_cursor i)
  pick-none e false i = ground (arith, take_turn-none flows false c.bulk_cursor i)

  -- Every flow picked is one that the turn rules serve: an interactive flow with an item while
  -- fewer than two interactive turns have passed or no bulk flow has an item, a bulk flow with an
  -- item after two interactive turns or when no interactive flow has one; the count of
  -- interactive turns follows.
  pub pick-some : (i : ℕ) (d : Cursors) → pick flows c ≡ some (i, d) → Served flows c i d
  unfolding pick
  pick-some i d e = elim (Option-cases (take_turn flows true c.interactive_cursor)) [
    | inl none_left ↦ elim (Option-cases (take_turn flows false c.bulk_cursor)) [
      | inl neither ↦ absurd (ground arith)
      | inr ((j, cursor), bulk) ↦ inr (
        ground (arith, take_turn-some flows false c.bulk_cursor j cursor),
        ground arith,
        inr (λ w. take_turn-none flows true c.interactive_cursor w none_left),
      )
    ]
    | inr ((k, cursor), ia) ↦ elim (Bool-cases (ltb c.interactive_turns 2)) [
      | inl few ↦ inl (
        ground (arith, take_turn-some flows true c.interactive_cursor k cursor),
        inl (ground arith, ground arith),
      )
      | inr enough ↦ elim (Option-cases (take_turn flows false c.bulk_cursor)) [
        | inl no_bulk ↦ inl (
          ground (arith, take_turn-some flows true c.interactive_cursor k cursor),
          inr (λ w. take_turn-none flows false c.bulk_cursor w no_bulk, ground arith),
        )
        | inr ((j, cursor'), bulk) ↦ inr (
          ground (arith, take_turn-some flows false c.bulk_cursor j cursor'),
          ground arith,
          inl (ground arith),
        )
      ]
    ]
  ]

  pub Served-ready :
      (i : ℕ) (d : Cursors) → Served flows c i d → (k : Bool) × (ready_at flows k i ≡ true)
  Served-ready i d (inl s) = (true, s.0)
  Served-ready i d (inr s) = (false, s.0)
