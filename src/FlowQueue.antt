-- ===== src/FlowQueue.antt =====
-- FlowQueue of cdn/include/pacetun/flow_scheduler.hpp: the bounded packet queue in front of a lane,
-- one FIFO per flow.
pub mod Prune
pub mod Expire
pub mod Invariant
pub mod Refine
use pacetun.Base.{
  ℕ, zero, suc, ◌+◌, ◌-◌, List, [], ◌∷◌, Bool, true, false, ◌||◌, Option, none, some, ltb, leb,
  ◌==◌, if◌then◌else◌, length, is_empty, max, add64, sub64,
}
use pacetun.Flow.{packet_flow}
use pacetun.Turns.{Flow, Cursors, start, pick, pop_at, add_item}

pub record FlowPacket : Type 0 where
  pub bytes : List ℕ
  pub enqueued_us : ℕ

abbrev pub no_packet : FlowPacket
no_packet = record { bytes = []; enqueued_us = 0 }

-- `cursors` are interactive_cursor_, bulk_cursor_ and interactive_turns_.
pub record FlowQueue : Type 0 where
  pub flows : List (Flow FlowPacket)
  pub packets : ℕ
  pub bytes : ℕ
  pub cursors : Cursors

unfoldable pub clear : FlowQueue
clear = record { flows = []; packets = 0; bytes = 0; cursors = start }

unfoldable pub empty : FlowQueue → Bool
empty q = q.packets == 0

-- std::remove_if on the flows with no packet.
unfoldable pub busy_flows : List (Flow FlowPacket) → List (Flow FlowPacket)
busy_flows [] = []
busy_flows (f ∷ fs) = if is_empty f.items then busy_flows fs else f ∷ busy_flows fs

unfoldable pub prune_if_needed : FlowQueue → FlowQueue
prune_if_needed q =
    if leb (length q.flows) (q.packets + 32)
    then q
    else record q { flows = busy_flows q.flows; cursors = start }

-- The age of a flow's front packet, if it is not from the future.
unfoldable pub front_age : ℕ → List FlowPacket → ℕ → ℕ
front_age now [] age = age
front_age now (p ∷ ps) age = if leb p.enqueued_us now then max age (now - p.enqueued_us) else age

unfoldable pub oldest_age : ℕ → List (Flow FlowPacket) → ℕ → ℕ
oldest_age now [] age = age
oldest_age now (f ∷ fs) age = oldest_age now fs (front_age now f.items age)

unfoldable pub oldest_age_us : FlowQueue → ℕ → ℕ
unfolding oldest_age front_age
oldest_age_us q now = oldest_age now q.flows 0

-- `packet.empty() || packets_ >= max_packets || packet.size() > max_bytes ||
-- bytes_ > max_bytes - packet.size()`
abbrev pub refuses : FlowQueue → List ℕ → ℕ → ℕ → Bool
refuses q packet max_packets max_bytes =
    is_empty packet
    || leb max_packets q.packets
    || ltb max_bytes (length packet)
    || ltb (max_bytes - length packet) q.bytes

-- The packet joins its flow, or a new one that is interactive by this packet's size.
abbrev pub append_packet : FlowQueue → List ℕ → ℕ → FlowQueue
append_packet q packet at_us = record {
  flows =
      add_item q.flows (packet_flow packet) (leb (length packet) 256)
        (record { bytes = packet; enqueued_us = at_us });
  packets = add64 q.packets 1;
  bytes = add64 q.bytes (length packet);
  cursors = q.cursors;
}

unfoldable pub push : FlowQueue → List ℕ → ℕ → ℕ → ℕ → FlowQueue × Bool
unfolding prune_if_needed
push q packet at_us max_packets max_bytes =
    if refuses q packet max_packets max_bytes
    then (q, false)
    else (append_packet (prune_if_needed q) packet at_us, true)

-- packets_, bytes_ and the local `dropped`.
pub record Counts : Type 0 where
  pub packets : ℕ
  pub bytes : ℕ
  pub dropped : ℕ

abbrev pub count_drop : Counts → FlowPacket → Counts
count_drop c p = record {
  packets = sub64 c.packets 1;
  bytes = sub64 c.bytes (length p.bytes);
  dropped = add64 c.dropped 1;
}

-- `now_us < front.enqueued_us || now_us - front.enqueued_us <= ttl_us`
abbrev pub fresh : ℕ → ℕ → FlowPacket → Bool
fresh now_us ttl_us p = ltb now_us p.enqueued_us || leb (now_us - p.enqueued_us) ttl_us

-- The `while` loop on one flow.
unfoldable pub drop_front : ℕ → ℕ → List FlowPacket → Counts → List FlowPacket × Counts
drop_front now_us ttl_us [] c = ([], c)
drop_front now_us ttl_us (p ∷ ps) c =
    let rest = drop_front now_us ttl_us ps (count_drop c p) in
    if fresh now_us ttl_us p then (p ∷ ps, c) else rest

-- The `for` loop over the flows.
unfoldable pub drop_flows :
    ℕ → ℕ → List (Flow FlowPacket) → Counts → List (Flow FlowPacket) × Counts
unfolding drop_front
drop_flows now_us ttl_us [] c = ([], c)
drop_flows now_us ttl_us (f ∷ fs) c =
    let (ps, c') = drop_front now_us ttl_us f.items c in
    let (fs', c'') = drop_flows now_us ttl_us fs c' in (record f { items = ps } ∷ fs', c'')

-- `if (packets_ == 0) clear(); else prune_if_needed();`
unfoldable pub settle : FlowQueue → FlowQueue
unfolding clear prune_if_needed
settle q = if q.packets == 0 then clear else prune_if_needed q

unfoldable pub drop_expired : FlowQueue → ℕ → ℕ → FlowQueue × ℕ
unfolding drop_flows settle
drop_expired q now_us ttl_us =
    let (fs, c) =
      drop_flows now_us ttl_us q.flows
        (record { packets = q.packets; bytes = q.bytes; dropped = 0 }) in
    (settle (record q { flows = fs; packets = c.packets; bytes = c.bytes }), c.dropped)

-- The last lines of `pop`, with the packet taken from its flow.
abbrev pub taken : FlowQueue → Cursors → FlowPacket → List (Flow FlowPacket) → FlowQueue
taken q c p fs = record {
  flows = fs;
  packets = sub64 q.packets 1;
  bytes = sub64 q.bytes (length p.bytes);
  cursors = c;
}

abbrev pub pop_flow :
    FlowQueue → Cursors → Option (FlowPacket × List (Flow FlowPacket)) → FlowQueue × FlowPacket
pop_flow q c none = (q, no_packet)
pop_flow q c (some (p, fs)) = (settle (taken q c p fs), p)

abbrev pub pop_picked : FlowQueue → Option (ℕ × Cursors) → FlowQueue × FlowPacket
pop_picked q none = (q, no_packet)
pop_picked q (some (i, c)) = pop_flow q c (pop_at q.flows i)

unfoldable pub pop : FlowQueue → FlowQueue × FlowPacket
unfolding empty
pop q = if empty q then (q, no_packet) else pop_picked q (pick q.flows q.cursors)
