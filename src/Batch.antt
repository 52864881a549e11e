-- ===== src/Batch.antt =====
-- schedule_packet_batch of cdn/include/pacetun/flow_scheduler.hpp: the order in which the packets
-- of one batch are sent.
pub mod Correct
use pacetun.Base.{
  ℕ, zero, suc, ◌+◌, List, [], ◌∷◌, Bool, not, ◌||◌, none, some, ltb, leb, if◌then◌else◌, length,
}
use pacetun.Flow.{packet_flow}
use pacetun.Turns.{Flow, Cursors, start, pick, pop_at, add_item}

-- The indices from `i` on, `n` of them.
abbrev pub range : ℕ → ℕ → List ℕ
range i zero = []
range i (suc n) = i ∷ range (i + 1) n

-- The first loop: packet `i` joins its flow. A new flow is interactive by its first packet's size.
unfoldable pub build : List (List ℕ) → ℕ → List (Flow ℕ) → List (Flow ℕ)
build [] i flows = flows
build (p ∷ ps) i flows = build ps (i + 1) (add_item flows (packet_flow p) (leb (length p) 256) i)

-- The `while` loop: `left` is packets.size() - order.size(), and the loop breaks when no flow is
-- ready.
unfoldable pub drain : ℕ → List (Flow ℕ) → Cursors → List ℕ
drain zero flows c = []
drain (suc left) flows c = elim (pick flows c) [
  | none ↦ []
  | some (i, d) ↦ elim (pop_at flows i) [ none ↦ [] | some (x, rest) ↦ x ∷ drain left rest d ]
]

unfoldable pub schedule_packet_batch : List (List ℕ) → Bool → List ℕ
unfolding build drain
schedule_packet_batch packets enabled =
    if not enabled || ltb (length packets) 2
    then range 0 (length packets)
    else drain (length packets) (build packets 0 []) start
