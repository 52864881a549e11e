-- ===== src/Pool/Run.antt =====
-- About runs of calls of PoolAffinity::choose, cdn/include/pacetun/pool.hpp, for packets of many flows.
use pacetun.Base.{
  ℕ, ◌+◌, ◌≤◌, ◌<◌, ◌≡◌, ◌≢◌, refl, sym, ap, ◌∙◌, ◌⊎◌, List, [], ◌∷◌, true, false, All, some,
  length, is_empty, leb, Bool-cases, Option-cases, inl, inr, arith,
}
use pacetun.Flow.{PacketFlow, flow_eq, packet_flow}
use pacetun.Flow.Key.{flow_key, flow_eq-packet_flow}
use pacetun.Pool.{Entry, Affinity, cap, find, update, make_room, contains, choose}
use pacetun.Pool.Sticky.{flow_eq_refl, flow_eq-same, find-same, find-choose, choose-found}
use pacetun.Pool.Bounded.{length-update}

-- One call of choose.
pub record Call : Type 0 where
  pub packet : List ℕ
  pub live_ids : List ℕ
  pub now : ℕ
  pub preferred : ℕ

abbrev pub call : Affinity → Call → Affinity × ℕ
call fs c = choose fs c.packet c.live_ids c.now c.preferred

abbrev pub calls : Affinity → List Call → Affinity
calls fs [] = fs
calls fs (c ∷ cs) = calls (call fs c).0 cs

flow_eq_sym : (a b : PacketFlow) → flow_eq a b ≡ true → flow_eq b a ≡ true
flow_eq_sym a b h = sym (flow_eq-same b a b h) ∙ flow_eq_refl b

-- A key that is not `key` is not found where `key` is.
flow_eq_apart :
    (k key other : PacketFlow)
    → flow_eq k key ≡ true
    → flow_eq key other ≡ false
    → flow_eq k other ≡ false
flow_eq_apart k key other h n = elim (Bool-cases (flow_eq k other)) [
  | inl e ↦ let t = flow_eq-same key k other e ∙ flow_eq_sym k key h in absurd (ground arith)
  | inr e ↦ e
]

find-update_other :
    (key other : PacketFlow) (x : Entry) (fs : Affinity)
    → flow_eq key other ≡ false
    → find other (update key x fs) ≡ find other fs
unfolding find update
find-update_other key other x [] n = refl
find-update_other key other x ((k, e) ∷ fs) n = elim (Bool-cases (flow_eq k key)) [
  | inl hit ↦ let miss = flow_eq_apart k key other hit n in rw (hit) (rw miss refl)
  | inr away ↦ rw (away) (rw (find-update_other key other x fs n) refl)
]

make_room-same : (now : ℕ) (fs : Affinity) → length fs < cap → make_room now fs ≡ fs
unfolding make_room
make_room-same now fs h = let e : leb cap (length fs) ≡ false = ground arith in rw e refl

-- A call for one flow leaves the entries of the others, while the table is not full.
find-choose_other :
    (fs : Affinity) (packet live_ids : List ℕ) (now preferred : ℕ) (other : PacketFlow)
    → length fs < cap
    → flow_eq (packet_flow packet) other ≡ false
    → find other (choose fs packet live_ids now preferred).0 ≡ find other fs
unfolding choose find
find-choose_other fs packet [] now preferred other room n = refl
find-choose_other fs packet (l ∷ ls) now preferred other room n =
    elim (Option-cases (find (packet_flow packet) fs)) [
      | inl none_found ↦ rw (none_found, n, make_room-same now fs room) refl
      | inr (e, found) ↦ rw found (find-update_other (packet_flow packet) other _ fs n)
    ]

length-choose_room :
    (fs : Affinity) (packet live_ids : List ℕ) (now preferred : ℕ)
    → length fs < cap
    → length (choose fs packet live_ids now preferred).0 ≤ length fs + 1
unfolding choose
length-choose_room fs packet [] now preferred room = omega arith
length-choose_room fs packet (l ∷ ls) now preferred room =
    elim (Option-cases (find (packet_flow packet) fs)) [
      | inl none_found ↦ rw (none_found, make_room-same now fs room) (omega arith)
      | inr (e, found) ↦ rw found (omega (arith, length-update (packet_flow packet) _ fs))
    ]

-- The table gives the flow of packet `p` this lane.
abbrev Gives : List ℕ → ℕ → Affinity → Type 0
Gives p lane fs = (t : ℕ) × (find (packet_flow p) fs ≡ some (record { lane = lane; last_us = t }))

-- A call for another flow, or one with this lane among the live ones.
abbrev pub Spares : List ℕ → ℕ → Call → Type 0
Spares p lane c = (flow_key c.packet ≢ flow_key p) ⊎ (contains lane c.live_ids ≡ true)

live_some : (lane : ℕ) (live : List ℕ) → contains lane live ≡ true → is_empty live ≡ false
unfolding contains
live_some lane [] h = cc
live_some lane (l ∷ ls) h = refl

call-Gives :
    (p : List ℕ) (lane : ℕ) (fs : Affinity) (c : Call)
    → length fs < cap
    → Spares p lane c
    → Gives p lane fs
    → Gives p lane (call fs c).0
call-Gives p lane fs c room spares (t, found) =
    elim (Bool-cases (flow_eq (packet_flow c.packet) (packet_flow p))) [
      | inr apart ↦ (
        t,
        find-choose_other fs c.packet c.live_ids c.now c.preferred (packet_flow p) room apart
            ∙ found,
      )
      | inl same ↦ elim spares [
        | inl other ↦ absurd (other ((flow_eq-packet_flow c.packet p).0 same))
        | inr alive ↦
            let here = sym (find-same (packet_flow c.packet) (packet_flow p) fs same) ∙ found in
            let kept =
              choose-found fs c.packet c.live_ids c.now c.preferred
                (record { lane = lane; last_us = t }) here alive in
            (
              c.now,
              find-same (packet_flow c.packet) (packet_flow p) (call fs c).0 same
                  ∙ find-choose fs c.packet c.live_ids c.now c.preferred
                      (live_some lane c.live_ids alive)
                  ∙ ap (λ l. some (record { lane = l; last_us = c.now })) kept,
            )
      ]
    ]

calls-Gives :
    (p : List ℕ) (lane : ℕ) (fs : Affinity) (cs : List Call)
    → length fs + length cs ≤ cap
    → All (Spares p lane) cs
    → Gives p lane fs
    → Gives p lane (calls fs cs)
calls-Gives p lane fs [] room spares g = g
calls-Gives p lane fs (c ∷ cs) room spares g =
    let less = length-choose_room fs c.packet c.live_ids c.now c.preferred (omega arith) in
    calls-Gives p lane (call fs c).0 cs (omega arith) spares.1
      (call-Gives p lane fs c (omega arith) spares.0 g)

-- If some lane is live when a packet is given a lane, then whatever calls of choose follow, for
-- packets of any flows and at any times, a last call for a packet with the same flow key answers
-- the same lane, under three conditions: the flows in the table after the first call and the
-- number of the calls between are at most 4096, so that no entry is pruned or evicted; each call
-- between is for another flow key or has this lane among its live ones; and the last call has it
-- among its live ones.
pub choose_sticks :
    (fs : Affinity) (first : Call) (between : List Call) (last : Call)
    → is_empty first.live_ids ≡ false
    → length (call fs first).0 + length between ≤ cap
    → All (Spares first.packet (call fs first).1) between
    → flow_key last.packet ≡ flow_key first.packet
    → contains (call fs first).1 last.live_ids ≡ true
    → (call (calls (call fs first).0 between) last).1 ≡ (call fs first).1
choose_sticks fs first between last live room spares same alive =
    let (gs, lane) = call fs first in
    let (t, found) =
      calls-Gives first.packet lane gs between room spares
        (first.now, find-choose fs first.packet first.live_ids first.now first.preferred live) in
    let here =
      find-same (packet_flow first.packet) (packet_flow last.packet) (calls gs between)
        ((flow_eq-packet_flow first.packet last.packet).1 (sym same))
      ∙ found in
    choose-found (calls gs between) last.packet last.live_ids last.now last.preferred
      (record { lane = lane; last_us = t }) here alive
