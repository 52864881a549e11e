-- ===== src/Tests/Queue.antt =====
-- FlowQueue on a few packets.
use pacetun.Base.{
  ℕ, ◌+◌, ◌<◌, ◌≡◌, ◌≢◌, ◌↔◌, refl, List, [], ◌∷◌, ◌++◌, true, false, length, add64, arith,
}
use pacetun.Flow.{packet_flow, flow_eq}
use pacetun.Flow.Key.{flow_key}
use pacetun.Turns.{Flow, add_item}
use pacetun.Turns.Items.{items}
use pacetun.Turns.Fifo.{of_key}
use pacetun.FlowQueue.{FlowQueue, clear, push, pop, drop_expired}
use pacetun.FlowQueue.Expire.{drop_stale}
use pacetun.FlowQueue.Invariant.{owner, IsValid, HasRoom, clear-IsValid, push-IsValid, pop-IsValid}
use pacetun.FlowQueue.Refine.{
  view, push-accepts, push-view, pop-view, drop_expired-IsValid, drop_expired-view,
}

-- An IPv4 UDP datagram of 28 bytes, from port `p`.
abbrev datagram : ℕ → List ℕ
datagram p =
    69 ∷ 0 ∷ 0 ∷ 28 ∷ 0 ∷ 0 ∷ 0 ∷ 0 ∷ 64 ∷ 17 ∷ 0 ∷ 0 ∷ 10 ∷ 0 ∷ 0 ∷ 1 ∷ 10 ∷ 0 ∷ 0 ∷ 2 ∷ 0 ∷ p ∷ 0
    ∷ 53 ∷ 0 ∷ 8 ∷ 0 ∷ 0 ∷ []

abbrev two_flows : FlowQueue
two_flows = (push (push clear (datagram 7) 5 10 1000).0 (datagram 9) 6 10 1000).0

two_flows-IsValid : IsValid two_flows
two_flows-IsValid =
    push-IsValid (push clear (datagram 7) 5 10 1000).0 (datagram 9) 6 10 1000 (omega arith)
      (omega arith)
      (push-IsValid clear (datagram 7) 5 10 1000 (omega arith) (omega arith) clear-IsValid)

two_flows-packets : two_flows.packets ≡ 2
unfolding push clear add64 add_item
two_flows-packets = refl

two_flows_busy : two_flows.packets ≢ 0
two_flows_busy = omega (arith, two_flows-packets)

push-IsValid_example : IsValid (push two_flows (datagram 7) 8 10 1000).0
push-IsValid_example =
    push-IsValid two_flows (datagram 7) 8 10 1000 (omega arith) (omega arith) two_flows-IsValid

push-accepts_example :
    ((push two_flows (datagram 7) 8 10 1000).1 ≡ true) ↔ HasRoom two_flows (datagram 7) 10 1000
push-accepts_example = push-accepts two_flows (datagram 7) 8 10 1000

push-view_example :
    let (r, done) = push two_flows (datagram 7) 8 10 1000 in
    ((done ≡ false) → r ≡ two_flows)
    × ((done ≡ true)
        → view r (flow_key (datagram 7))
          ≡ view two_flows (flow_key (datagram 7))
            ++ of_key owner
                (flow_key (datagram 7))
                (record { bytes = datagram 7; enqueued_us = 8 } ∷ []))
push-view_example =
    push-view two_flows (datagram 7) 8 10 1000 (flow_key (datagram 7)) two_flows-IsValid

pop-IsValid_example : IsValid (pop two_flows).0
pop-IsValid_example = pop-IsValid two_flows two_flows-IsValid

pop-view_example :
    let (r, x) = pop two_flows in
    (view two_flows (flow_key (datagram 7))
      ≡ of_key owner (flow_key (datagram 7)) (x ∷ items r.flows))
    × (two_flows.packets ≡ r.packets + 1)
    × (0 < length x.bytes)
pop-view_example = pop-view two_flows (flow_key (datagram 7)) two_flows-IsValid two_flows_busy

drop_expired-IsValid_example : IsValid (drop_expired two_flows 20 14).0
drop_expired-IsValid_example = drop_expired-IsValid two_flows 20 14 two_flows-IsValid

drop_expired-view_example :
    let (r, dropped) = drop_expired two_flows 20 14 in
    (view r (flow_key (datagram 7)) ≡ drop_stale 20 14 (view two_flows (flow_key (datagram 7))))
    × (r.packets + dropped ≡ two_flows.packets)
drop_expired-view_example =
    drop_expired-view two_flows 20 14 (flow_key (datagram 7)) two_flows-IsValid

-- The packet of age 15 goes, the one of age 14 stays.
drop_expired_run : (drop_expired two_flows 20 14).1 ≡ 1
unfolding drop_expired push clear packet_flow add64 add_item flow_eq
drop_expired_run = refl
