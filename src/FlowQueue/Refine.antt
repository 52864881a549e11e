-- ===== src/FlowQueue/Refine.antt =====
-- FlowQueue of cdn/include/pacetun/flow_scheduler.hpp and its abstract view, a table of FIFOs.
use pacetun.Base.{
  ℕ, ◌+◌, ◌<◌, ◌≤◌, ◌≡◌, ◌≢◌, ◌↔◌, ◌⊎◌, refl, sym, List, [], ◌∷◌, ◌++◌, true, false, length, leb,
  sub64_lem, Bool-cases, inl, inr, arith,
}
use pacetun.Flow.{packet_flow}
use pacetun.Flow.Key.{key-packet_flow, packet_flow-IsKey}
use pacetun.Turns.{Flow, Cursors}
use pacetun.Turns.Items.{items}
use pacetun.Turns.Totals.{total, pop_at-Each}
use pacetun.Turns.Fifo.{of_key, pop_at-of_key, add_item-of_key}
use pacetun.FlowQueue.{
  FlowPacket, FlowQueue, Counts, prune_if_needed, refuses, push, settle, clear, taken, pop,
  drop_flows, drop_expired,
}
use pacetun.FlowQueue.Expire.{
  drop_stale, expire, Covers, Counted, drop_flows-items, drop_flows-Counted, expire-Each,
  expire-Distinct, expire-Owned, of_key-expire,
}
use pacetun.FlowQueue.Invariant.{
  owner, size, IsSound, IsValid, HasRoom, refuses_iff, prune-IsValid_same, settle-IsValid,
  items-settle, taken-IsSound, pop_cases, pick-turns,
}

-- The FIFO of a key.
abbrev pub view : FlowQueue → List ℕ → List FlowPacket
view q k = of_key owner k (items q.flows)

-- Push answers true exactly when the packet has bytes, the packets held are fewer than the limit,
-- and the bytes held and those of the packet are within the limit.
pub push-accepts :
    (q : FlowQueue) (packet : List ℕ) (at_us max_packets max_bytes : ℕ)
    → ((push q packet at_us max_packets max_bytes).1 ≡ true)
      ↔ HasRoom q packet max_packets max_bytes
unfolding push
push-accepts q packet at_us max_packets max_bytes =
    let room = refuses_iff q packet max_packets max_bytes in
    elim (Bool-cases (refuses q packet max_packets max_bytes)) [
      | inl no_room ↦ rw no_room (λ e. cc, λ h. cc (no_room, room.1 h))
      | inr some_room ↦ rw some_room (λ e. room.0 some_room, λ h. refl)
    ]

-- A push into a valid queue that answers false changes nothing; one that answers true puts the
-- packet, with its time, at the end of the FIFO of its key, and leaves the FIFO of every other
-- key alone.
pub push-view :
    (q : FlowQueue) (packet : List ℕ) (at_us max_packets max_bytes : ℕ) (k : List ℕ)
    → IsValid q
    → let (r, done) = push q packet at_us max_packets max_bytes in
      ((done ≡ false) → r ≡ q)
      × ((done ≡ true)
          → view r k
            ≡ view q k ++ of_key owner k (record { bytes = packet; enqueued_us = at_us } ∷ []))
unfolding push
push-view q packet at_us max_packets max_bytes k v =
    let x : FlowPacket = record { bytes = packet; enqueued_us = at_us } in
    elim (Bool-cases (refuses q packet max_packets max_bytes)) [
      | inl no_room ↦ rw no_room (λ e. refl, λ e. cc)
      | inr room ↦
          rw (room, prune-IsValid_same q v)
            (
              λ e. cc,
              λ e.
                  add_item-of_key owner k q.flows (packet_flow packet) (leb (length packet) 256) x
                    (packet_flow-IsKey packet) (sym (key-packet_flow packet)) v.owned v.distinct,
            )
    ]

settle-packets : (q : FlowQueue) → (settle q).packets ≡ q.packets
unfolding settle clear prune_if_needed
settle-packets q = ground arith

-- If the queue is valid and holds a packet, then for every key its FIFO is that of the packet
-- popped, if it has the key, in front of the FIFO after the pop; one packet less is counted, and
-- the packet popped has bytes.
pub pop-view :
    (q : FlowQueue) (k : List ℕ)
    → IsValid q
    → q.packets ≢ 0
    → let (r, x) = pop q in
      (view q k ≡ of_key owner k (x ∷ items r.flows))
      × (q.packets ≡ r.packets + 1)
      × (0 < length x.bytes)
pop-view q k v busy = elim (pop_cases q v) [
  | inl (nothing, _) ↦ absurd (busy nothing)
  | inr (i, d, x, rest, e, p, r) ↦
      let s = taken-IsSound q i d x rest p (pick-turns q i d e) v in
      rw (r, items-settle (taken q d x rest) s, settle-packets (taken q d x rest))
        (
          pop_at-of_key owner k q.flows i x rest p v.owned v.distinct,
          omega (arith, sub64_lem q.packets 1 (omega arith) v.packets_fit),
          (pop_at-Each (λ z. 0 < size z) q.flows i x rest p v.nonempty).0,
        )
]

-- What `settle` does with the cursors: they stay, with the flows, or the queue starts anew, when
-- it is empty or has more than 32 flows over its packets.
abbrev pub Kept : FlowQueue → List (Flow FlowPacket) → Cursors → Type 0
Kept q rest d =
    ((q.packets ≢ 0)
      × (length rest ≤ q.packets + 32)
      × (q.flows ≡ rest)
      × (q.cursors.interactive_cursor ≡ d.interactive_cursor)
      × (q.cursors.bulk_cursor ≡ d.bulk_cursor)
      × (q.cursors.interactive_turns ≡ d.interactive_turns))
    ⊎ (((q.packets ≡ 0) ⊎ (q.packets + 32 < length rest))
        × (q.cursors.interactive_cursor ≡ 0)
        × (q.cursors.bulk_cursor ≡ 0)
        × (q.cursors.interactive_turns ≡ 0))

abbrev counts : FlowQueue → Counts
counts q = record { packets = q.packets; bytes = q.bytes; dropped = 0 }

module _ (q : FlowQueue) (now ttl : ℕ) (v : IsValid q) where
  covered : Covers (counts q) (length (items q.flows)) (total size (items q.flows))
  covered = record {
    packets_low = omega (arith, v.counted);
    packets_high = v.packets_fit;
    bytes_low = omega (arith, v.sized);
    bytes_high = v.bytes_fit;
    dropped_high = omega (arith, v.counted, v.packets_fit);
  }

  moved :
      Counted
        (counts q)
        (drop_flows now ttl q.flows (counts q)).1
        (length (items q.flows))
        (length (items (expire now ttl q.flows)))
        (total size (items q.flows))
        (total size (items (expire now ttl q.flows)))
  moved = drop_flows-Counted now ttl q.flows (counts q) covered

  -- The queue just before drop_expired settles it.
  abbrev expired : FlowQueue
  expired =
      let (fs, c) = drop_flows now ttl q.flows (counts q) in
      record q { flows = fs; packets = c.packets; bytes = c.bytes }

  expired-IsSound : IsSound expired
  expired-IsSound =
      let same = drop_flows-items now ttl q.flows (counts q) in
      let m = moved in
      record {
        counted = rw same (omega (arith, m.packets_moved, v.counted));
        sized = rw same (omega (arith, m.bytes_moved, v.sized));
        packets_fit = omega (arith, m.fewer, m.packets_moved, v.counted, v.packets_fit);
        bytes_fit = omega (arith, m.lighter, m.bytes_moved, v.sized, v.bytes_fit);
        owned = rw same (expire-Owned now ttl owner q.flows v.owned);
        distinct = rw same (expire-Distinct now ttl q.flows v.distinct);
        nonempty = rw same (expire-Each now ttl (λ p. 0 < size p) q.flows v.nonempty);
        turns = v.turns;
      }

-- Drop_expired keeps a valid queue valid, whatever the time and the limit.
pub drop_expired-IsValid :
    (q : FlowQueue) (now ttl : ℕ) → IsValid q → IsValid (drop_expired q now ttl).0
unfolding drop_expired
drop_expired-IsValid q now ttl v =
    settle-IsValid (expired q now ttl v) (expired-IsSound q now ttl v)

-- On a valid queue drop_expired takes from the FIFO of every key the packets at its front that
-- are older than the limit, up to the first one that is not, and answers the number of all
-- packets it took.
pub drop_expired-view :
    (q : FlowQueue) (now ttl : ℕ) (k : List ℕ)
    → IsValid q
    → let (r, dropped) = drop_expired q now ttl in
      (view r k ≡ drop_stale now ttl (view q k)) × (r.packets + dropped ≡ q.packets)
unfolding drop_expired
drop_expired-view q now ttl k v =
    rw
      (
        items-settle (expired q now ttl v) (expired-IsSound q now ttl v),
        settle-packets (expired q now ttl v),
        drop_flows-items now ttl q.flows (counts q),
      )
      (
        of_key-expire now ttl owner k q.flows v.owned v.distinct,
        omega (
          arith,
          (moved q now ttl v).packets_moved,
          (moved q now ttl v).dropped_moved,
          v.counted,
        ),
      )
