-- ===== src/FlowQueue/Expire.antt =====
-- About the loops of FlowQueue::drop_expired, cdn/include/pacetun/flow_scheduler.hpp.
use mathlib.Core.List.{append-nil}
use pacetun.Base.{
  Bool, leb, ℕ, suc, ◌+◌, ◌≤◌, ◌<◌, ◌≡◌, ◌≢◌, refl, ap, subst, List, [], ◌∷◌, if◌then◌else◌, length,
  length-append, All, u64, add64_lem, sub64_lem, Bool-cases, inl, inr, arith,
}
use pacetun.Flow.{list_eq}
use pacetun.Flow.Key.{key, list_eq_iff}
use pacetun.Turns.{Flow}
use pacetun.Turns.Items.{items}
use pacetun.Turns.Totals.{total, total-append, Each}
use pacetun.Turns.Fifo.{
  Owned, Absent, Distinct, of_key, of_key-append, of_key-All, of_key_none, of_key-Absent,
}
use pacetun.FlowQueue.{FlowPacket, Counts, count_drop, fresh, drop_front, drop_flows}

-- A packet lives until `ttl` after it was queued.
abbrev pub lives : ℕ → ℕ → FlowPacket → Bool
lives now ttl p = leb now (p.enqueued_us + ttl)

-- The packets of a FIFO from the first that lives on.
abbrev pub drop_stale : ℕ → ℕ → List FlowPacket → List FlowPacket
drop_stale now ttl [] = []
drop_stale now ttl (p ∷ ps) = if lives now ttl p then p ∷ ps else drop_stale now ttl ps

abbrev pub expire : ℕ → ℕ → List (Flow FlowPacket) → List (Flow FlowPacket)
expire now ttl [] = []
expire now ttl (f ∷ fs) = record f { items = drop_stale now ttl f.items } ∷ expire now ttl fs

abbrev pub size : FlowPacket → ℕ
size p = length p.bytes

-- The counters have room for `n` packets of `w` bytes.
pub record Covers (c : Counts) (n w : ℕ) : Type 0 where
  pub packets_low : n ≤ c.packets
  pub packets_high : c.packets < u64
  pub bytes_low : w ≤ c.bytes
  pub bytes_high : c.bytes < u64
  pub dropped_high : c.dropped + n < u64

-- From `c` to `d` the packets went from `n` to `m` and their bytes from `w` to `v`.
pub record Counted (c d : Counts) (n m w v : ℕ) : Type 0 where
  pub fewer : m ≤ n
  pub lighter : v ≤ w
  pub packets_moved : d.packets + n ≡ c.packets + m
  pub bytes_moved : d.bytes + w ≡ c.bytes + v
  pub dropped_moved : d.dropped + m ≡ c.dropped + n

module _ (now ttl : ℕ) where
  fresh-lives : (p : FlowPacket) → fresh now ttl p ≡ lives now ttl p
  fresh-lives p = ground arith

  drop_front-items :
      (ps : List FlowPacket) (c : Counts) → (drop_front now ttl ps c).0 ≡ drop_stale now ttl ps
  unfolding drop_front
  drop_front-items [] c = refl
  drop_front-items (p ∷ ps) c =
      rw (fresh-lives p) (ground (arith, drop_front-items ps (count_drop c p)))

  drop_front-Counted :
      (ps : List FlowPacket) (c : Counts)
      → Covers c (length ps) (total size ps)
      → Counted c
          (drop_front now ttl ps c).1
          (length ps)
          (length (drop_stale now ttl ps))
          (total size ps)
          (total size (drop_stale now ttl ps))
  unfolding drop_front
  drop_front-Counted [] c v = omega arith
  drop_front-Counted (p ∷ ps) c v = elim (Bool-cases (lives now ttl p)) [
    | inl stays ↦ rw (fresh-lives p, stays) (omega arith)
    | inr goes ↦
        let a = sub64_lem c.packets 1 (omega arith) v.packets_high in
        let b = sub64_lem c.bytes (size p) (omega arith) v.bytes_high in
        let d = add64_lem c.dropped 1 (omega arith) in
        let next = drop_front-Counted ps (count_drop c p) (record {
          packets_low = omega arith;
          packets_high = omega arith;
          bytes_low = omega arith;
          bytes_high = omega arith;
          dropped_high = omega arith;
        }) in
        rw (fresh-lives p, goes)
          (record {
            fewer = omega (arith, next.fewer);
            lighter = omega (arith, next.lighter);
            packets_moved = omega (arith, next.packets_moved);
            bytes_moved = omega (arith, next.bytes_moved);
            dropped_moved = omega (arith, next.dropped_moved);
          })
  ]

  pub drop_flows-items :
      (fs : List (Flow FlowPacket)) (c : Counts) → (drop_flows now ttl fs c).0 ≡ expire now ttl fs
  unfolding drop_flows
  drop_flows-items [] c = refl
  drop_flows-items (f ∷ fs) c =
      rw (drop_front-items f.items c, drop_flows-items fs (drop_front now ttl f.items c).1) refl

  pub drop_flows-Counted :
      (fs : List (Flow FlowPacket)) (c : Counts)
      → Covers c (length (items fs)) (total size (items fs))
      → Counted c
          (drop_flows now ttl fs c).1
          (length (items fs))
          (length (items (expire now ttl fs)))
          (total size (items fs))
          (total size (items (expire now ttl fs)))
  unfolding drop_flows
  drop_flows-Counted [] c v = omega arith
  drop_flows-Counted (f ∷ fs) c v =
      let d = (drop_front now ttl f.items c).1 in
      let n = length-append f.items (items fs) in
      let w = total-append size f.items (items fs) in
      let m = length-append (drop_stale now ttl f.items) (items (expire now ttl fs)) in
      let u = total-append size (drop_stale now ttl f.items) (items (expire now ttl fs)) in
      let a = drop_front-Counted f.items c (record {
        packets_low = omega (arith, n);
        packets_high = v.packets_high;
        bytes_low = omega (arith, w);
        bytes_high = v.bytes_high;
        dropped_high = omega (arith, n);
      }) in
      let b = drop_flows-Counted fs d (record {
        packets_low = omega (arith, n, a.packets_moved);
        packets_high = omega (arith, a.fewer, a.packets_moved);
        bytes_low = omega (arith, w, a.bytes_moved);
        bytes_high = omega (arith, a.lighter, a.bytes_moved);
        dropped_high = omega (arith, n, a.fewer, a.dropped_moved);
      }) in
      record {
        fewer = omega (arith, n, m, a.fewer, b.fewer);
        lighter = omega (arith, w, u, a.lighter, b.lighter);
        packets_moved = omega (arith, n, m, a.packets_moved, b.packets_moved);
        bytes_moved = omega (arith, w, u, a.bytes_moved, b.bytes_moved);
        dropped_moved = omega (arith, n, m, a.dropped_moved, b.dropped_moved);
      }

  pub All-drop_stale {κ} :
      (P : FlowPacket → Type κ) (ps : List FlowPacket) → All P ps → All P (drop_stale now ttl ps)
  All-drop_stale P [] h = tt
  All-drop_stale P (p ∷ ps) h = elim (Bool-cases (lives now ttl p)) [
    | inl stays ↦ rw stays h
    | inr goes ↦ rw goes (All-drop_stale P ps h.1)
  ]

  pub expire-Each {κ} :
      (P : FlowPacket → Type κ) (fs : List (Flow FlowPacket))
      → Each P fs
      → Each P (expire now ttl fs)
  expire-Each P [] h = tt
  expire-Each P (f ∷ fs) h = (All-drop_stale P f.items h.0, expire-Each P fs h.1)

  expire-Absent :
      (k : List ℕ) (fs : List (Flow FlowPacket)) → Absent k fs → Absent k (expire now ttl fs)
  expire-Absent k [] a = tt
  expire-Absent k (f ∷ fs) a = (a.0, expire-Absent k fs a.1)

  pub expire-Distinct : (fs : List (Flow FlowPacket)) → Distinct fs → Distinct (expire now ttl fs)
  expire-Distinct [] d = tt
  expire-Distinct (f ∷ fs) d = (expire-Absent (key f.id) fs d.0, expire-Distinct fs d.1)

  pub length-expire : (fs : List (Flow FlowPacket)) → length (expire now ttl fs) ≡ length fs
  length-expire [] = refl
  length-expire (f ∷ fs) = ap suc (length-expire fs)

  module _ (owner : FlowPacket → List ℕ) where
    pub expire-Owned :
        (fs : List (Flow FlowPacket)) → Owned owner fs → Owned owner (expire now ttl fs)
    expire-Owned [] o = tt
    expire-Owned (f ∷ fs) o =
        ((o.0.0, All-drop_stale (λ x. owner x ≡ key f.id) f.items o.0.1), expire-Owned fs o.1)

    -- Key by key: the stale packets at the front go, and no other.
    pub of_key-expire :
        (k : List ℕ) (fs : List (Flow FlowPacket))
        → Owned owner fs
        → Distinct fs
        → of_key owner k (items (expire now ttl fs))
          ≡ drop_stale now ttl (of_key owner k (items fs))
    of_key-expire k [] o d = refl
    of_key-expire k (f ∷ fs) o d =
        let kept = All-drop_stale (λ x. owner x ≡ key f.id) f.items o.0.1 in
        rw
          (
            of_key-append owner k f.items (items fs),
            of_key-append owner k (drop_stale now ttl f.items) (items (expire now ttl fs)),
          )
          (elim (Bool-cases (list_eq (key f.id) k)) [
            | inl hit ↦
                let e = (list_eq_iff (key f.id) k).0 hit in
                let gone = of_key-Absent owner k fs o.1 (subst (λ j. Absent j fs) e d.0) in
                let gone' =
                  of_key-Absent owner k (expire now ttl fs) (expire-Owned fs o.1)
                    (expire-Absent k fs (subst (λ j. Absent j fs) e d.0)) in
                rw
                  (
                    gone,
                    gone',
                    append-nil,
                    append-nil,
                    of_key-All owner k f.items
                        (subst (λ j. All (λ x. owner x ≡ j) f.items) e o.0.1),
                    of_key-All owner k (drop_stale now ttl f.items)
                        (subst (λ j. All (λ x. owner x ≡ j) (drop_stale now ttl f.items)) e kept),
                  )
                  refl
            | inr miss ↦
                let ne : key f.id ≢ k = λ e. cc (miss, (list_eq_iff (key f.id) k).1 e) in
                rw
                  (
                    of_key_none owner k (key f.id) f.items o.0.1 ne,
                    of_key_none owner k (key f.id) (drop_stale now ttl f.items) kept ne,
                  )
                  (of_key-expire k fs o.1 d.1)
          ])
