-- ===== src/Flow/Key.antt =====
-- The flow key of cdn/include/pacetun/flow_scheduler.hpp described as a list, apart from the
-- array.
use mathlib.Core.List.{append_assoc, append-nil}
use native.Mathlib.Nat.{add-zero, add_comm}
use native.Mathlib.Numerals.{add-one}
use pacetun.Base.{
  ℕ, zero, suc, ◌+◌, ◌/◌, ◌≤◌, ◌≡◌, refl, ap, subst, ◌≢◌, ◌∙◌, ◌↔◌, List, [], ◌∷◌, ◌++◌, true,
  false, ◌&&◌, leb, ◌==◌, if◌then◌else◌, length, set, take, replicate, slice, length-slice,
  length-set, length-take, Bool-cases, inl, inr, arith,
}
use pacetun.Flow.{
  PacketFlow, list_eq, flow_eq, copy_at, at, address_flow, add_ports, v4_malformed, v4_ports,
  v6_ports, packet_flow,
}

-- The bytes that operator== compares.
abbrev pub key : PacketFlow → List ℕ
key f = take f.len f.bytes

-- The flow key of a packet: version, protocol, both addresses, and the ports of a whole TCP or UDP
-- packet. A malformed packet and one of another version has the empty key.
unfoldable pub flow_key : List ℕ → List ℕ
flow_key p =
    if at p 0 / 16 == 4 && leb 20 (length p)
    then (if v4_malformed p
        then []
        else 4
          ∷ at p 9
          ∷ (slice 12 8 p ++ (if v4_ports p == 0 then [] else slice (v4_ports p) 4 p)))
    else (if at p 0 / 16 == 6 && leb 40 (length p)
        then 6 ∷ at p 6 ∷ (slice 8 32 p ++ (if v6_ports p == 0 then [] else slice (v6_ports p) 4 p))
        else [])

take-set :
    (bs : List ℕ) (i x : ℕ) → suc i ≤ length bs → take (suc i) (set bs i x) ≡ take i bs ++ x ∷ []
take-set [] i x h = elim h [ ]
take-set (b ∷ bs) zero x h = refl
take-set (b ∷ bs) (suc i) x h = ap (◌∷◌ b) (take-set bs i x (omega arith))

length-copy_at : (bs : List ℕ) (off : ℕ) (xs : List ℕ) → length (copy_at bs off xs) ≡ length bs
unfolding copy_at
length-copy_at bs off [] = refl
length-copy_at bs off (x ∷ xs) = length-copy_at (set bs off x) (off + 1) xs ∙ length-set bs off x

take-copy_at :
    (bs : List ℕ) (off : ℕ) (xs : List ℕ)
    → off + length xs ≤ length bs
    → take (off + length xs) (copy_at bs off xs) ≡ take off bs ++ xs
unfolding copy_at
take-copy_at bs off [] h = rw (add-zero, append-nil) refl
take-copy_at bs off (x ∷ xs) h =
    rw (next, take-copy_at (set bs off x) (off + 1) xs (omega (arith, length-set bs off x)))
      (rw (add-one, take-set bs off x (omega arith), append_assoc) refl)
  where
    next : off + suc (length xs) ≡ off + 1 + length xs
    next = omega arith

take-copy_slice :
    (bs : List ℕ) (off from n : ℕ) (p : List ℕ)
    → off + n ≤ length bs
    → from + n ≤ length p
    → take (off + n) (copy_at bs off (slice from n p)) ≡ take off bs ++ slice from n p
take-copy_slice bs off from n p h k =
    subst (λ m. take (off + m) (copy_at bs off (slice from n p)) ≡ take off bs ++ slice from n p)
      (length-slice from n p k)
      (take-copy_at bs off (slice from n p) (omega (arith, length-slice from n p k)))

key-add_ports :
    (f : PacketFlow) (ports : ℕ) (p : List ℕ)
    → f.len + 4 ≤ length f.bytes
    → ports + 4 ≤ length p
    → key (add_ports f ports p) ≡ key f ++ (if ports == 0 then [] else slice ports 4 p)
unfolding add_ports
key-add_ports f ports p h k = elim (Bool-cases (ports == 0)) [
  | inl none ↦ rw (none, append-nil) refl
  | inr some ↦ rw some (take-copy_slice f.bytes f.len ports 4 p h k)
]

-- The header's part of the key.
key-address_flow :
    (version protocol from n : ℕ) (p : List ℕ)
    → n ≤ 36
    → from + n ≤ length p
    → key (address_flow version protocol from n p) ≡ version ∷ protocol ∷ slice from n p
key-address_flow version protocol from n p h k =
    subst
      (λ m.
        take m (copy_at (version ∷ protocol ∷ replicate 36 0) 2 (slice from n p))
        ≡ version ∷ protocol ∷ slice from n p)
      (add_comm 2 n)
      (take-copy_slice (version ∷ protocol ∷ replicate 36 0) 2 from n p (omega arith) k)

-- A header with its ports.
key-with_ports :
    (version protocol from n ports : ℕ) (p : List ℕ)
    → n ≤ 32
    → from + n ≤ length p
    → (ports ≢ 0 → ports + 4 ≤ length p)
    → key (add_ports (address_flow version protocol from n p) ports p)
      ≡ version ∷ protocol ∷ (slice from n p ++ (if ports == 0 then [] else slice ports 4 p))
key-with_ports version protocol from n ports p h k l = elim (Bool-cases (ports == 0)) [
  | inl none ↦
      rw (none, append-nil)
        (unfold add_ports in rw none (key-address_flow version protocol from n p (omega arith) k))
  | inr some ↦
      key-add_ports (address_flow version protocol from n p) ports p
        (omega (arith, length-copy_at (version ∷ protocol ∷ replicate 36 0) 2 (slice from n p)))
        (l (ground arith))
      ∙ ap (λ k. k ++ (if ports == 0 then [] else slice ports 4 p))
          (key-address_flow version protocol from n p (omega arith) k)
]

v4_ports_within : (p : List ℕ) → v4_malformed p ≡ false → v4_ports p ≢ 0 → v4_ports p + 4 ≤ length p
v4_ports_within p good h = ground arith

v6_ports_within : (p : List ℕ) → v6_ports p ≢ 0 → v6_ports p + 4 ≤ length p
v6_ports_within p h = ground arith

-- `packet_flow` builds exactly the key that `flow_key` describes.
pub key-packet_flow : (p : List ℕ) → key (packet_flow p) ≡ flow_key p
unfolding packet_flow flow_key
key-packet_flow [] = refl
key-packet_flow (b ∷ bs) = elim (Bool-cases (at (b ∷ bs) 0 / 16 == 4 && leb 20 (length (b ∷ bs)))) [
  | inl v4 ↦ rw v4 (elim (Bool-cases (v4_malformed (b ∷ bs))) [
    | inl bad ↦ rw bad refl
    | inr good ↦ rw good (
        key-with_ports 4 (at (b ∷ bs) 9) 12 8 (v4_ports (b ∷ bs)) (b ∷ bs) (omega arith)
          (ground arith) (v4_ports_within (b ∷ bs) good))
  ])
  | inr other ↦ rw other (elim (Bool-cases (at (b ∷ bs) 0 / 16 == 6 && leb 40 (length (b ∷ bs)))) [
    | inl v6 ↦ rw v6 (
        key-with_ports 6 (at (b ∷ bs) 6) 8 32 (v6_ports (b ∷ bs)) (b ∷ bs) (omega arith)
          (ground arith) (v6_ports_within (b ∷ bs)))
    | inr neither ↦ rw neither refl
  ])
]

-- The array keeps its size and the key lies in it.
pub record IsKey (f : PacketFlow) : Type 0 where
  pub full : length f.bytes ≡ 38
  pub fits : f.len ≤ 38

add_ports-IsKey :
    (version protocol from n ports : ℕ) (p : List ℕ)
    → n ≤ 32
    → IsKey (add_ports (address_flow version protocol from n p) ports p)
unfolding add_ports
add_ports-IsKey version protocol from n ports p h =
    let start = version ∷ protocol ∷ replicate 36 0 in
    ground (
      arith,
      length-copy_at start 2 (slice from n p),
      length-copy_at (copy_at start 2 (slice from n p)) (n + 2) (slice ports 4 p),
    )

pub packet_flow-IsKey : (p : List ℕ) → IsKey (packet_flow p)
unfolding packet_flow
packet_flow-IsKey p = ground (
  arith,
  add_ports-IsKey 4 (at p 9) 12 8 (v4_ports p) p (omega arith),
  add_ports-IsKey 6 (at p 6) 8 32 (v6_ports p) p (omega arith),
)

pub list_eq_iff : (xs ys : List ℕ) → (list_eq xs ys ≡ true) ↔ (xs ≡ ys)
unfolding list_eq
list_eq_iff [] [] = ground arith
list_eq_iff [] (y ∷ ys) = ground arith
list_eq_iff (x ∷ xs) [] = ground arith
list_eq_iff (x ∷ xs) (y ∷ ys) = ground (arith, list_eq_iff xs ys)

pub flow_eq_iff : (a b : PacketFlow) → IsKey a → IsKey b → (flow_eq a b ≡ true) ↔ (key a ≡ key b)
unfolding flow_eq
flow_eq_iff a b va vb = (
  λ h. ground (arith, list_eq_iff (take a.len a.bytes) (take a.len b.bytes)),
  λ h. ground (
    arith,
    list_eq_iff (take a.len a.bytes) (take a.len b.bytes),
    ap length h,
    length-take a.len a.bytes,
    length-take b.len b.bytes,
  ),
)

-- The flows of two packets compare equal exactly when their keys, computed from the packets
-- alone, are the same bytes.
pub flow_eq-packet_flow :
    (p q : List ℕ) → (flow_eq (packet_flow p) (packet_flow q) ≡ true) ↔ (flow_key p ≡ flow_key q)
flow_eq-packet_flow p q =
    rw (← key-packet_flow p, ← key-packet_flow q)
      (flow_eq_iff (packet_flow p) (packet_flow q) (packet_flow-IsKey p) (packet_flow-IsKey q))
