-- ===== src/Pool/Sticky.antt =====
-- About the lane that PoolAffinity::choose answers, cdn/include/pacetun/pool.hpp.
use pacetun.Base.{
  ℕ, zero, suc, ◌%◌, ◌<◌, ◌≡◌, refl, sym, subst, List, [], ◌∷◌, true, false, not, ◌&&◌, some,
  length, is_empty, get_or, take, Bool-cases, Option-cases, inl, inr, arith, ◌==◌,
}
use native.Mathlib.Nat.{mod-lt}
use pacetun.Flow.{PacketFlow, flow_eq, packet_flow}
use pacetun.Flow.Key.{list_eq_iff}
use pacetun.Pool.{Entry, Affinity, packet_flow_hash, find, update, contains, fallback, choose}

contains-get_or : (live : List ℕ) (i : ℕ) → i < length live → contains (get_or live i 0) live ≡ true
unfolding contains
contains-get_or [] i h = absurd (omega arith)
contains-get_or (x ∷ xs) zero h = ground arith
contains-get_or (x ∷ xs) (suc i) h = ground (arith, contains-get_or xs i (omega arith))

nonempty_length : (live : List ℕ) → is_empty live ≡ false → 0 < length live
nonempty_length [] h = cc
nonempty_length (x ∷ xs) h = omega arith

contains-fallback :
    (key : PacketFlow) (live : List ℕ) (preferred : ℕ)
    → is_empty live ≡ false
    → contains (fallback key live preferred) live ≡ true
contains-fallback key live preferred h =
    let i = packet_flow_hash key % length live in
    let ok = contains-get_or live i (mod-lt (packet_flow_hash key) (nonempty_length live h)) in
    elim (Bool-cases (not (preferred == 0) && contains preferred live)) [
      | inl good ↦ rw good (ground arith)
      | inr bad ↦ rw bad ok
    ]

-- If some lane is live, the lane chosen is one of the live ones, for every table, packet, time
-- and preference.
pub choose-live :
    (fs : Affinity) (packet live_ids : List ℕ) (now preferred : ℕ)
    → is_empty live_ids ≡ false
    → contains (choose fs packet live_ids now preferred).1 live_ids ≡ true
unfolding choose
choose-live fs packet live now preferred h =
    let key = packet_flow packet in
    let ok = contains-fallback key live preferred h in
    elim (Option-cases (find key fs)) [
      | inl none_found ↦ rw (h, none_found) ok
      | inr (e, found) ↦ elim (Bool-cases (contains e.lane live)) [
        | inl alive ↦ rw (h, found, alive) alive
        | inr dead ↦ rw (h, found, dead) ok
      ]
    ]

pub flow_eq_refl : (a : PacketFlow) → flow_eq a a ≡ true
unfolding flow_eq
flow_eq_refl a = ground (arith, (list_eq_iff (take a.len a.bytes) (take a.len a.bytes)).1 refl)

-- Equal keys compare alike with any key.
pub flow_eq-same : (a p q : PacketFlow) → flow_eq p q ≡ true → flow_eq a q ≡ flow_eq a p
unfolding flow_eq
flow_eq-same a p q h =
    let lens : p.len ≡ q.len = ground arith in
    let both : take p.len p.bytes ≡ take p.len q.bytes =
      (list_eq_iff (take p.len p.bytes) (take p.len q.bytes)).0 (ground arith) in
    elim (Bool-cases (a.len == p.len)) [
      | inl e ↦
          let al : a.len ≡ p.len = ground arith in
          let t = subst (λ n. take n p.bytes ≡ take n q.bytes) (sym al) both in rw (t, lens) refl
      | inr e ↦ rw (← lens, e) refl
    ]

pub find-same : (p q : PacketFlow) (fs : Affinity) → flow_eq p q ≡ true → find q fs ≡ find p fs
unfolding find
find-same p q [] h = refl
find-same p q ((k, e) ∷ fs) h = rw (flow_eq-same k p q h, find-same p q fs h) refl

pub find-update :
    (key : PacketFlow) (x e : Entry) (fs : Affinity)
    → find key fs ≡ some e
    → find key (update key x fs) ≡ some x
unfolding find update
find-update key x e [] h = cc
find-update key x e ((k, y) ∷ fs) h = elim (Bool-cases (flow_eq k key)) [
  | inl hit ↦ rw (hit) (rw hit refl)
  | inr miss ↦ rw (miss) (rw miss (find-update key x e fs (rw miss at h)))
]

-- What the flow of the packet has after `choose`.
pub find-choose :
    (fs : Affinity) (packet live_ids : List ℕ) (now preferred : ℕ)
    → is_empty live_ids ≡ false
    → let (gs, lane) = choose fs packet live_ids now preferred in
      find (packet_flow packet) gs ≡ some (record { lane = lane; last_us = now })
unfolding choose find
find-choose fs packet live now preferred h =
    let key = packet_flow packet in
    elim (Option-cases (find key fs)) [
      | inl none_found ↦ rw (h, none_found, flow_eq_refl key) refl
      | inr (e, found) ↦ rw (h, found) (find-update key _ e fs found)
    ]

pub choose-found :
    (fs : Affinity) (packet live_ids : List ℕ) (now preferred : ℕ) (e : Entry)
    → find (packet_flow packet) fs ≡ some e
    → contains e.lane live_ids ≡ true
    → (choose fs packet live_ids now preferred).1 ≡ e.lane
unfolding choose contains
choose-found fs packet [] now preferred e found alive = cc
choose-found fs packet (l ∷ ls) now preferred e found alive = rw (found, alive) refl
