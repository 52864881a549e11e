-- ===== src/FlowQueue/Invariant.antt =====
-- The counters and the flows of FlowQueue, cdn/include/pacetun/flow_scheduler.hpp, as an
-- invariant.
use pacetun.Base.{
  ℕ, ◌+◌, ◌≤◌, ◌<◌, ◌≡◌, ◌↔◌, ◌⊎◌, refl, sym, ap, List, [], ◌∷◌, Bool, false, some, leb, ◌==◌,
  length, is_empty, u64, add64_lem, sub64_lem, Bool-cases, inl, inr, arith,
}
use pacetun.Flow.{packet_flow}
use pacetun.Flow.Key.{flow_key, key-packet_flow, packet_flow-IsKey}
use pacetun.Turns.{Flow, Cursors, pick, pop_at}
use pacetun.Turns.Fair.{pick-some}
use pacetun.Turns.Items.{items, add_item-length, pop_at-length, pick_cases}
use pacetun.Turns.Totals.{
  total, add_item-total, pop_at-total, Each, add_item-Each, pop_at-Each, length-add_item,
}
use pacetun.Turns.Fifo.{Owned, Distinct, add_item-Owned, pop_at-Owned}
use pacetun.FlowQueue.{
  FlowPacket, FlowQueue, no_packet, clear, prune_if_needed, refuses, append_packet, push, settle,
  taken, pop,
}
use pacetun.FlowQueue.Prune.{
  items-busy_flows, length-busy_flows, Distinct-busy_flows, Owned-busy_flows, Each-busy_flows,
}

-- The key of a packet, and its size.
abbrev pub owner : FlowPacket → List ℕ
owner p = flow_key p.bytes

abbrev pub size : FlowPacket → ℕ
size p = length p.bytes

pub record IsSound (q : FlowQueue) : Type 0 where
  pub counted : q.packets ≡ length (items q.flows)
  pub sized : q.bytes ≡ total size (items q.flows)
  pub packets_fit : q.packets < u64
  pub bytes_fit : q.bytes < u64
  pub owned : Owned owner q.flows
  pub distinct : Distinct q.flows
  pub nonempty : Each (λ p. 0 < size p) q.flows
  pub turns : q.cursors.interactive_turns ≤ 2

-- Between calls the idle flows are few, too.
pub record IsValid (q : FlowQueue) : Type 0 where
  pub sound : IsSound q
  pub open sound use *
  pub bounded : length q.flows ≤ q.packets + 32

pub clear-IsValid : IsValid clear
unfolding clear
clear-IsValid = record {
  sound = record {
    counted = refl;
    sized = refl;
    packets_fit = omega arith;
    bytes_fit = omega arith;
    owned = tt;
    distinct = tt;
    nonempty = tt;
    turns = omega arith;
  };
  bounded = omega arith;
}

pub prune-IsValid : (q : FlowQueue) → IsSound q → IsValid (prune_if_needed q)
unfolding prune_if_needed
prune-IsValid q v = elim (Bool-cases (leb (length q.flows) (q.packets + 32))) [
  | inl few ↦ rw few (record { sound = v; bounded = ground arith })
  | inr many ↦ rw many (record {
    sound = record {
      counted = rw (items-busy_flows q.flows) v.counted;
      sized = rw (items-busy_flows q.flows) v.sized;
      packets_fit = v.packets_fit;
      bytes_fit = v.bytes_fit;
      owned = Owned-busy_flows owner q.flows v.owned;
      distinct = Distinct-busy_flows q.flows v.distinct;
      nonempty = Each-busy_flows (λ p. 0 < size p) q.flows v.nonempty;
      turns = omega arith;
    };
    bounded = omega (arith, length-busy_flows q.flows, v.counted);
  })
]

pub items-prune : (q : FlowQueue) → items (prune_if_needed q).flows ≡ items q.flows
unfolding prune_if_needed
items-prune q = elim (Bool-cases (leb (length q.flows) (q.packets + 32))) [
  | inl few ↦ rw few refl
  | inr many ↦ rw many (items-busy_flows q.flows)
]

-- With its invariant a queue is not pruned.
pub prune-IsValid_same : (q : FlowQueue) → IsValid q → prune_if_needed q ≡ q
unfolding prune_if_needed
prune-IsValid_same q v = ground arith

pub settle-IsValid : (q : FlowQueue) → IsSound q → IsValid (settle q)
unfolding settle
settle-IsValid q v = elim (Bool-cases (q.packets == 0)) [
  | inl none_left ↦ rw none_left clear-IsValid
  | inr some_left ↦ rw some_left (prune-IsValid q v)
]

nil_of_length : (xs : List FlowPacket) → length xs ≡ 0 → xs ≡ []
nil_of_length [] h = refl
nil_of_length (x ∷ xs) h = absurd (omega arith)

pub items-settle : (q : FlowQueue) → IsSound q → items (settle q).flows ≡ items q.flows
unfolding settle clear
items-settle q v = elim (Bool-cases (q.packets == 0)) [
  | inl none_left ↦ rw none_left (sym (nil_of_length (items q.flows) (ground (arith, v.counted))))
  | inr some_left ↦ rw some_left (items-prune q)
]

length-is_empty : (packet : List ℕ) → is_empty packet ≡ false → 0 < length packet
length-is_empty [] h = cc
length-is_empty (b ∷ bs) h = omega arith

is_empty_of_pos : (packet : List ℕ) → 0 < length packet → is_empty packet ≡ false
is_empty_of_pos [] h = absurd (omega arith)
is_empty_of_pos (b ∷ bs) h = refl

-- What the guard of `push` leaves.
pub record HasRoom (q : FlowQueue) (packet : List ℕ) (max_packets max_bytes : ℕ) : Type 0 where
  pub some_bytes : 0 < length packet
  pub one_more : q.packets < max_packets
  pub fits : q.bytes + length packet ≤ max_bytes

pub refuses_iff :
    (q : FlowQueue) (packet : List ℕ) (max_packets max_bytes : ℕ)
    → (refuses q packet max_packets max_bytes ≡ false) ↔ HasRoom q packet max_packets max_bytes
refuses_iff q packet max_packets max_bytes =
    (λ h. ground (arith, length-is_empty packet), λ h. ground (arith, is_empty_of_pos packet))

module _ (q : FlowQueue) (packet : List ℕ) (at_us : ℕ) (v : IsValid q) where
  append_packet-IsValid :
      0 < length packet
      → q.packets + 1 < u64
      → q.bytes + length packet < u64
      → IsValid (append_packet q packet at_us)
  append_packet-IsValid some_bytes hp hb =
      let x : FlowPacket = record { bytes = packet; enqueued_us = at_us } in
      let b : Bool = leb (length packet) 256 in
      let id = packet_flow packet in
      let (own, dis) =
        add_item-Owned owner q.flows id b x (packet_flow-IsKey packet)
          (sym (key-packet_flow packet)) v.owned v.distinct in
      record {
        sound = record {
          counted =
              omega (arith, v.counted, add64_lem q.packets 1 hp, add_item-length q.flows id b x);
          sized = omega (
            arith,
            v.sized,
            add64_lem q.bytes (length packet) hb,
            add_item-total size q.flows id b x,
          );
          packets_fit = omega (arith, add64_lem q.packets 1 hp);
          bytes_fit = omega (arith, add64_lem q.bytes (length packet) hb);
          owned = own;
          distinct = dis;
          nonempty = add_item-Each (λ p. 0 < size p) q.flows id b x some_bytes v.nonempty;
          turns = v.turns;
        };
        bounded =
            omega (arith, v.bounded, add64_lem q.packets 1 hp, length-add_item q.flows id b x);
      }

-- With limits that are 64-bit values, push keeps the queue valid: the counters agree with the
-- packets held and fit in 64 bits, each key has one flow, each packet is in the flow of its key
-- and has bytes, and the flows are at most 32 more than the packets.
pub push-IsValid :
    (q : FlowQueue) (packet : List ℕ) (at_us max_packets max_bytes : ℕ)
    → max_packets < u64
    → max_bytes < u64
    → IsValid q
    → IsValid (push q packet at_us max_packets max_bytes).0
unfolding push
push-IsValid q packet at_us max_packets max_bytes hp hb v =
    elim (Bool-cases (refuses q packet max_packets max_bytes)) [
      | inl no_room ↦ rw no_room v
      | inr room ↦
          let r = (refuses_iff q packet max_packets max_bytes).0 room in
          rw (room, prune-IsValid_same q v)
            (append_packet-IsValid q packet at_us v r.some_bytes (omega (arith, r.one_more))
              (omega (arith, r.fits)))
    ]

-- A pop that has chosen a flow.
pub taken-IsSound :
    (q : FlowQueue) (i : ℕ) (c : Cursors) (x : FlowPacket) (rest : List (Flow FlowPacket))
    → pop_at q.flows i ≡ some (x, rest)
    → c.interactive_turns ≤ 2
    → IsValid q
    → IsSound (taken q c x rest)
taken-IsSound q i c x rest e t v =
    let n = pop_at-length q.flows i x rest e in
    let w = pop_at-total size q.flows i x rest e in
    let (own, dis, _) = pop_at-Owned owner q.flows i x rest e v.owned v.distinct in
    let pk = sub64_lem q.packets 1 (omega (arith, n, v.counted)) v.packets_fit in
    let by = sub64_lem q.bytes (size x) (omega (arith, w, v.sized)) v.bytes_fit in
    record {
      counted = omega (arith, pk, n, v.counted);
      sized = omega (arith, by, w, v.sized);
      packets_fit = omega (arith, pk, v.packets_fit);
      bytes_fit = omega (arith, by, v.bytes_fit);
      owned = own;
      distinct = dis;
      nonempty = (pop_at-Each (λ p. 0 < size p) q.flows i x rest e v.nonempty).1;
      turns = t;
    }

-- A pop finds nothing only in an empty queue; otherwise it takes the front of the flow picked.
pub pop_cases :
    (q : FlowQueue)
    → IsValid q
    → ((q.packets ≡ 0) × (pop q ≡ (q, no_packet)))
      ⊎ ((i : ℕ) × (d : Cursors) × (x : FlowPacket) × (rest : List (Flow FlowPacket)) × (pick
              q.flows q.cursors
            ≡ some (i, d))
          × (pop_at q.flows i ≡ some (x, rest))
          × (pop q ≡ (settle (taken q d x rest), x)))
unfolding pop
pop_cases q v = elim (Bool-cases (q.packets == 0)) [
  | inl nothing ↦ inl (ground arith, rw nothing refl)
  | inr busy ↦ elim (pick_cases q.flows q.cursors) [
    | inl (_, done) ↦ absurd (ground (arith, v.counted, ap length done))
    | inr (i, d, x, rest, e, p) ↦ inr (i, d, x, rest, e, p, rw (busy, e, p) refl)
  ]
]

pub pick-turns :
    (q : FlowQueue) (i : ℕ) (d : Cursors)
    → pick q.flows q.cursors ≡ some (i, d)
    → d.interactive_turns ≤ 2
pick-turns q i d e = elim (pick-some q.flows q.cursors i d e) [
  | inl (_, inl (few, next)) ↦ omega arith
  | inl (_, inr (_, one)) ↦ omega arith
  | inr s ↦ omega (arith, s.1)
]

-- Pop keeps a valid queue valid, empty or not.
pub pop-IsValid : (q : FlowQueue) → IsValid q → IsValid (pop q).0
pop-IsValid q v = elim (pop_cases q v) [
  | inl (_, e) ↦ rw e v
  | inr (i, d, x, rest, e, p, r) ↦
      rw r (settle-IsValid (taken q d x rest) (taken-IsSound q i d x rest p (pick-turns q i d e) v))
]
