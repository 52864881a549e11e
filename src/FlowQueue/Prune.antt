-- ===== src/FlowQueue/Prune.antt =====
-- About FlowQueue::prune_if_needed, cdn/include/pacetun/flow_scheduler.hpp.
use pacetun.Base.{
  ℕ, ◌≤◌, ◌≡◌, refl, ap, List, [], ◌∷◌, ◌++◌, true, false, length, length-append, is_empty,
  Bool-cases, inl, inr, arith,
}
use pacetun.Flow.Key.{key}
use pacetun.Turns.{Flow}
use pacetun.Turns.Items.{items}
use pacetun.Turns.Totals.{Each}
use pacetun.Turns.Fifo.{Owned, Absent, Distinct}
use pacetun.FlowQueue.{FlowPacket, busy_flows}

empty-items : (xs ys : List FlowPacket) → is_empty xs ≡ true → xs ++ ys ≡ ys
empty-items [] ys h = refl
empty-items (x ∷ xs) ys h = cc

pub items-busy_flows : (fs : List (Flow FlowPacket)) → items (busy_flows fs) ≡ items fs
unfolding busy_flows
items-busy_flows [] = refl
items-busy_flows (f ∷ fs) = elim (Bool-cases (is_empty f.items)) [
  | inl idle ↦ rw (idle, empty-items f.items (items fs) idle) (items-busy_flows fs)
  | inr busy ↦ rw busy (ap (◌++◌ f.items) (items-busy_flows fs))
]

busy-length : (xs : List FlowPacket) → is_empty xs ≡ false → 1 ≤ length xs
busy-length [] h = cc
busy-length (x ∷ xs) h = omega arith

-- What is left has a packet each.
pub length-busy_flows : (fs : List (Flow FlowPacket)) → length (busy_flows fs) ≤ length (items fs)
unfolding busy_flows
length-busy_flows [] = omega arith
length-busy_flows (f ∷ fs) = elim (Bool-cases (is_empty f.items)) [
  | inl idle ↦ rw (idle, empty-items f.items (items fs) idle) (length-busy_flows fs)
  | inr busy ↦ rw busy (
      omega
        (arith, length-append f.items (items fs), busy-length f.items busy, length-busy_flows fs))
]

Absent-busy_flows :
    (k : List ℕ) (fs : List (Flow FlowPacket)) → Absent k fs → Absent k (busy_flows fs)
unfolding busy_flows
Absent-busy_flows k [] a = tt
Absent-busy_flows k (f ∷ fs) a = elim (Bool-cases (is_empty f.items)) [
  | inl idle ↦ rw idle (Absent-busy_flows k fs a.1)
  | inr busy ↦ rw busy (a.0, Absent-busy_flows k fs a.1)
]

pub Distinct-busy_flows : (fs : List (Flow FlowPacket)) → Distinct fs → Distinct (busy_flows fs)
unfolding busy_flows
Distinct-busy_flows [] d = tt
Distinct-busy_flows (f ∷ fs) d = elim (Bool-cases (is_empty f.items)) [
  | inl idle ↦ rw idle (Distinct-busy_flows fs d.1)
  | inr busy ↦ rw busy (Absent-busy_flows (key f.id) fs d.0, Distinct-busy_flows fs d.1)
]

pub Owned-busy_flows :
    (owner : FlowPacket → List ℕ) (fs : List (Flow FlowPacket))
    → Owned owner fs
    → Owned owner (busy_flows fs)
unfolding busy_flows
Owned-busy_flows owner [] o = tt
Owned-busy_flows owner (f ∷ fs) o = elim (Bool-cases (is_empty f.items)) [
  | inl idle ↦ rw idle (Owned-busy_flows owner fs o.1)
  | inr busy ↦ rw busy (o.0, Owned-busy_flows owner fs o.1)
]

pub Each-busy_flows {κ} :
    (P : FlowPacket → Type κ) (fs : List (Flow FlowPacket)) → Each P fs → Each P (busy_flows fs)
unfolding busy_flows
Each-busy_flows P [] o = tt
Each-busy_flows P (f ∷ fs) o = elim (Bool-cases (is_empty f.items)) [
  | inl idle ↦ rw idle (Each-busy_flows P fs o.1)
  | inr busy ↦ rw busy (o.0, Each-busy_flows P fs o.1)
]
