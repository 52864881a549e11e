-- ===== src/Pool/Bounded.antt =====
-- About the size of the table of PoolAffinity, cdn/include/pacetun/pool.hpp.
use pacetun.Base.{
  ℕ, ◌≤◌, ◌<◌, ◌≡◌, refl, sym, ap, subst, List, [], ◌∷◌, ◌⊎◌, some, length, if◌then◌else◌,
  Bool-cases, Option-cases, inl, inr, arith, ltb,
}
use pacetun.Flow.{PacketFlow, flow_eq, packet_flow}
use pacetun.Pool.{
  Entry, Affinity, cap, prune, find, update, erase, oldest, erase_oldest, make_room, choose,
}
use pacetun.Pool.Sticky.{flow_eq_refl}

pub length-update :
    (key : PacketFlow) (x : Entry) (fs : Affinity) → length (update key x fs) ≡ length fs
unfolding update
length-update key x [] = refl
length-update key x ((k, e) ∷ fs) = ground (arith, length-update key x fs)

length-erase :
    (key : PacketFlow) (e : Entry) (fs : Affinity)
    → find key fs ≡ some e
    → length (erase key fs) < length fs
unfolding erase find
length-erase key e [] h = cc
length-erase key e ((k, y) ∷ fs) h = ground (arith, length-erase key e fs)

found_behind :
    (key k : PacketFlow) (y e : Entry) (fs : Affinity)
    → find key fs ≡ some e
    → (x : Entry) × (find key ((k, y) ∷ fs) ≡ some x)
unfolding find
found_behind key k y e fs f = elim (Bool-cases (flow_eq k key)) [
  | inl hit ↦ (y, rw hit refl)
  | inr miss ↦ (e, rw (miss, f) refl)
]

oldest-step :
    (x y : PacketFlow × Entry) (fs : Affinity)
    → (oldest x (y ∷ fs) ≡ oldest x fs) ⊎ (oldest x (y ∷ fs) ≡ oldest y fs)
unfolding oldest
oldest-step x y fs = elim (Bool-cases (ltb y.1.last_us x.1.last_us)) [
  | inl older ↦ inr (ap (λ b. oldest (if b then y else x) fs) older)
  | inr newer ↦ inl (ap (λ b. oldest (if b then y else x) fs) newer)
]

-- The oldest entry is the one looked at first, or its flow is in the rest.
abbrev Held : PacketFlow × Entry → Affinity → PacketFlow × Entry → Type 0
Held x fs z = (z ≡ x) ⊎ ((e : Entry) × (find z.0 fs ≡ some e))

find_here :
    (z : PacketFlow × Entry) (k : PacketFlow) (y : Entry) (fs : Affinity)
    → z ≡ (k, y)
    → find z.0 ((k, y) ∷ fs) ≡ some y
unfolding find
find_here z k y fs h = rw (h, flow_eq_refl k) refl

oldest-Held : (x : PacketFlow × Entry) (fs : Affinity) → Held x fs (oldest x fs)
unfolding oldest
oldest-Held x [] = inl refl
oldest-Held x ((k, y) ∷ fs) = elim (oldest-step x (k, y) fs) [
  | inl old ↦ subst (Held x ((k, y) ∷ fs)) (sym old) (elim (oldest-Held x fs) [
    | inl same ↦ inl same
    | inr (e, f) ↦ inr (found_behind (oldest x fs).0 k y e fs f)
  ])
  | inr new ↦ subst (Held x ((k, y) ∷ fs)) (sym new) (elim (oldest-Held (k, y) fs) [
    | inl same ↦ inr (y, find_here (oldest (k, y) fs) k y fs same)
    | inr (e, f) ↦ inr (found_behind (oldest (k, y) fs).0 k y e fs f)
  ])
]

length-erase_oldest : (fs : Affinity) → 0 < length fs → length (erase_oldest fs) < length fs
unfolding erase_oldest find
length-erase_oldest [] h = absurd (omega arith)
length-erase_oldest (x ∷ fs) h = elim (oldest-Held x (x ∷ fs)) [
  | inl same ↦
      length-erase (oldest x (x ∷ fs)).0 x.1 (x ∷ fs)
        (find_here (oldest x (x ∷ fs)) x.0 x.1 fs same)
  | inr (e, f) ↦ length-erase (oldest x (x ∷ fs)).0 e (x ∷ fs) f
]

length-prune : (now : ℕ) (fs : Affinity) → length (prune now fs) ≤ length fs
unfolding prune
length-prune now [] = omega arith
length-prune now ((k, e) ∷ fs) = ground (arith, length-prune now fs)

length-make_room : (now : ℕ) (fs : Affinity) → length fs ≤ cap → length (make_room now fs) < cap
unfolding make_room
length-make_room now fs h = ground (arith, length-prune now fs, length-erase_oldest (prune now fs))

-- A choice leaves a table of at most 4096 flows within that size.
pub length-choose :
    (fs : Affinity) (packet live_ids : List ℕ) (now preferred : ℕ)
    → length fs ≤ cap
    → length (choose fs packet live_ids now preferred).0 ≤ cap
unfolding choose
length-choose fs packet [] now preferred h = h
length-choose fs packet (l ∷ ls) now preferred h =
    elim (Option-cases (find (packet_flow packet) fs)) [
      | inl none_found ↦ rw none_found (omega (arith, length-make_room now fs h))
      | inr (e, found) ↦ rw found (omega (arith, length-update (packet_flow packet) _ fs))
    ]
