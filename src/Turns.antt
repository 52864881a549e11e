-- ===== src/Turns.antt =====
-- The turn taking of cdn/include/pacetun/flow_scheduler.hpp: the flows of a queue, the `take`
-- closures of schedule_packet_batch and of FlowQueue::pop, and the order in which both call them.
-- `A` is what a flow queues, an index or a packet.
pub mod Order
pub mod Fair
pub mod Items
pub mod Totals
pub mod Fifo
use mathlib.Core.Option
use pacetun.Base.{
  ℕ, zero, suc, ◌+◌, ◌%◌, List, [], ◌∷◌, ◌++◌, Bool, true, false, not, ◌&&◌, Option, none, some,
  ltb, if◌then◌else◌, length, is_empty, get_elem?,
}
use pacetun.Flow.{PacketFlow, flow_eq}

pub record Flow {ℓ} (A : Type ℓ) : Type ℓ where
  pub id : PacketFlow
  pub items : List A
  pub interactive : Bool

-- The three variables that both schedulers keep.
pub record Cursors : Type 0 where
  pub interactive_cursor : ℕ
  pub bulk_cursor : ℕ
  pub interactive_turns : ℕ

abbrev pub start : Cursors
start = record { interactive_cursor = 0; bulk_cursor = 0; interactive_turns = 0 }

abbrev pub same : Bool → Bool → Bool
same true b = b
same false b = not b

abbrev pub or_else {ℓ} : {A : Type ℓ} → Option A → Option A → Option A
or_else (some x) o = some x
or_else none o = o

-- What a successful `take` leaves in the three variables.
abbrev pub interactive_turn : Cursors → ℕ → Option (ℕ × ℕ) → Option (ℕ × Cursors)
interactive_turn c turns none = none
interactive_turn c turns (some (index, cursor)) =
    some (index, record c { interactive_cursor = cursor; interactive_turns = turns })

abbrev pub bulk_turn : Cursors → Option (ℕ × ℕ) → Option (ℕ × Cursors)
bulk_turn c none = none
bulk_turn c (some (index, cursor)) =
    some (index, record c { bulk_cursor = cursor; interactive_turns = 0 })

module _ {ℓ} {A : Type ℓ} where
  -- `flow.interactive == interactive && !flow.indices.empty()`
  abbrev pub ready : Bool → Flow A → Bool
  ready interactive f = same f.interactive interactive && not (is_empty f.items)

  abbrev pub ready_at : List (Flow A) → Bool → ℕ → Bool
  ready_at [] interactive i = false
  ready_at (f ∷ fs) interactive zero = ready interactive f
  ready_at (f ∷ fs) interactive (suc i) = ready_at fs interactive i

  -- The `for` loop of `take` with `left` visits to go.
  unfoldable pub scan : List (Flow A) → Bool → ℕ → ℕ → ℕ → Option ℕ
  scan flows interactive cursor visited zero = none
  scan flows interactive cursor visited (suc left) =
      let index = (cursor + visited) % length flows in
      let rest = scan flows interactive cursor (visited + 1) left in
      if ready_at flows interactive index then some index else rest

  -- The index found and the cursor behind it.
  unfoldable pub take_turn : List (Flow A) → Bool → ℕ → Option (ℕ × ℕ)
  unfolding scan
  take_turn flows interactive cursor =
      Option.map (λ index. (index, (index + 1) % length flows))
        (scan flows interactive cursor 0 (length flows))

  -- One round: up to two interactive turns, then a bulk turn, then whatever is left.
  unfoldable pub pick : List (Flow A) → Cursors → Option (ℕ × Cursors)
  pick flows c =
      or_else
        (if ltb c.interactive_turns 2
          then interactive_turn c (c.interactive_turns + 1)
              (take_turn flows true c.interactive_cursor)
          else none)
        (or_else (bulk_turn c (take_turn flows false c.bulk_cursor))
          (interactive_turn c 1 (take_turn flows true c.interactive_cursor)))

  abbrev pub pop_front : Flow A → List (Flow A) → List A → Option (A × List (Flow A))
  pop_front f fs [] = none
  pop_front f fs (x ∷ xs) = some (x, record f { items = xs } ∷ fs)

  abbrev pub behind : Flow A → Option (A × List (Flow A)) → Option (A × List (Flow A))
  behind f none = none
  behind f (some (x, fs)) = some (x, f ∷ fs)

  -- The front item of flow `i` and the flows without it. An empty flow has no front.
  unfoldable pub pop_at : List (Flow A) → ℕ → Option (A × List (Flow A))
  pop_at [] i = none
  pop_at (f ∷ fs) zero = pop_front f fs f.items
  pop_at (f ∷ fs) (suc i) = behind f (pop_at fs i)

  -- std::find_if over the flows, and the item behind those of the flow found or in a new last flow.
  unfoldable pub add_item : List (Flow A) → PacketFlow → Bool → A → List (Flow A)
  add_item [] id interactive x = record { id = id; items = x ∷ []; interactive = interactive } ∷ []
  add_item (f ∷ fs) id interactive x =
      if flow_eq f.id id
      then record f { items = f.items ++ x ∷ [] } ∷ fs
      else f ∷ add_item fs id interactive x
