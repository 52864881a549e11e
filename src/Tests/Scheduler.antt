-- ===== src/Tests/Scheduler.antt =====
-- The flow keys, the turns and schedule_packet_batch on a few packets.
use mathlib.Core.List.{Perm}
use pacetun.Base.{ℕ, ◌≡◌, ◌↔◌, refl, List, [], ◌∷◌, true, false, some, length, replicate}
use pacetun.Flow.{packet_flow, flow_eq}
use pacetun.Flow.Key.{flow_key, flow_eq-packet_flow}
use pacetun.Turns.{Flow, Cursors, pick, take_turn, pop_at, add_item}
use pacetun.Turns.Fifo.{of_key}
use pacetun.Batch.{range, schedule_packet_batch}
use pacetun.Batch.Correct.{owner, schedule-perm, schedule_keeps_flow_order}

abbrev datagram : ℕ → List ℕ → List ℕ
datagram p text =
    69 ∷ 0 ∷ 0 ∷ 28 ∷ 0 ∷ 0 ∷ 0 ∷ 0 ∷ 64 ∷ 17 ∷ 0 ∷ 0 ∷ 10 ∷ 0 ∷ 0 ∷ 1 ∷ 10 ∷ 0 ∷ 0 ∷ 2 ∷ 0 ∷ p ∷ 0
    ∷ 53 ∷ 0 ∷ 8 ∷ 0 ∷ 0 ∷ text

abbrev batch : List (List ℕ)
batch =
    datagram 1 []
    ∷ datagram 1 []
    ∷ datagram 1 []
    ∷ datagram 2 (replicate 256 0)
    ∷ datagram 3 []
    ∷ []

-- The first flow shares with the third, and the bulk flow has the third turn.
batch_run : schedule_packet_batch batch true ≡ 0 ∷ 4 ∷ 3 ∷ 1 ∷ 2 ∷ []
unfolding schedule_packet_batch packet_flow flow_eq pick take_turn add_item pop_at
batch_run = refl

schedule-perm_example : Perm (schedule_packet_batch batch true) (range 0 (length batch))
schedule-perm_example = schedule-perm batch true

schedule_keeps_flow_order_example :
    of_key (owner batch) (flow_key (datagram 1 [])) (schedule_packet_batch batch true)
    ≡ of_key (owner batch) (flow_key (datagram 1 [])) (range 0 (length batch))
schedule_keeps_flow_order_example = schedule_keeps_flow_order batch true (flow_key (datagram 1 []))

flow_eq-packet_flow_example :
    (flow_eq (packet_flow (datagram 1 [])) (packet_flow (datagram 1 (5 ∷ []))) ≡ true)
    ↔ (flow_key (datagram 1 []) ≡ flow_key (datagram 1 (5 ∷ [])))
flow_eq-packet_flow_example = flow_eq-packet_flow (datagram 1 []) (datagram 1 (5 ∷ []))

abbrev waiting : List (Flow ℕ)
waiting =
    add_item (add_item [] (packet_flow (datagram 1 [])) true 0) (packet_flow (datagram 2 [])) false
      1

abbrev turn : Cursors
turn = record { interactive_cursor = 0; bulk_cursor = 0; interactive_turns = 2 }

-- The bulk flow is served after two interactive turns.
waiting-pick :
    pick waiting turn
    ≡ some (1, record { interactive_cursor = 0; bulk_cursor = 0; interactive_turns = 0 })
unfolding pick add_item packet_flow flow_eq take_turn
waiting-pick = refl
