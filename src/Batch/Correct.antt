-- ===== src/Batch/Correct.antt =====
-- About schedule_packet_batch of cdn/include/pacetun/flow_scheduler.hpp, its two loops and its
-- order.
use mathlib.Core.List.{Perm, perm_middle, append-nil, append_assoc}
use mathlib.Core.List.Perm
use pacetun.Base.{
  ℕ, zero, suc, ◌+◌, ◌≤◌, ◌≡◌, refl, sym, ap, ◌∙◌, List, [], ◌∷◌, ◌++◌, Bool, not, ◌||◌, ltb, leb,
  length, get_or, inl, inr, Bool-cases, arith,
}
use pacetun.Flow.{packet_flow}
use pacetun.Flow.Key.{key, flow_key, key-packet_flow, packet_flow-IsKey}
use pacetun.Turns.{Flow, Cursors, start, add_item}
use pacetun.Turns.Items.{
  items, add_item-perm, add_item-length, pop_at-perm, pop_at-length, pick_cases,
}
use pacetun.Turns.Fifo.{
  Owned, Distinct, of_key, pop_at-Owned, pop_at-of_key, add_item-Owned, add_item-of_key,
  of_key-append,
}
use pacetun.Batch.{range, build, drain, schedule_packet_batch}

length-zero {ℓ} : {A : Type ℓ} (xs : List A) → length xs ≤ 0 → xs ≡ []
length-zero [] h = refl
length-zero (x ∷ xs) h = absurd (omega arith)

-- With a round for each item queued, the loop empties the flows.
drain-perm :
    (left : ℕ) (flows : List (Flow ℕ)) (c : Cursors)
    → length (items flows) ≤ left
    → Perm (drain left flows c) (items flows)
unfolding drain
drain-perm zero flows c h = rw (length-zero (items flows) h) (Perm.refl [])
drain-perm (suc left) flows c h = elim (pick_cases flows c) [
  | inl (e, done) ↦ rw (e, drain, done) (Perm.refl [])
  | inr (i, d, x, rest, e, p) ↦
      rw (e, drain, p)
        (Perm.trans
          (Perm.cons x (drain-perm left rest d (omega (arith, pop_at-length flows i x rest p))))
          (Perm.symm (pop_at-perm flows i x rest p)))
]

drain-of_key :
    (owner : ℕ → List ℕ) (k : List ℕ) (left : ℕ) (flows : List (Flow ℕ)) (c : Cursors)
    → length (items flows) ≤ left
    → Owned owner flows
    → Distinct flows
    → of_key owner k (drain left flows c) ≡ of_key owner k (items flows)
unfolding drain
drain-of_key owner k zero flows c h o u = rw (length-zero (items flows) h) refl
drain-of_key owner k (suc left) flows c h o u = elim (pick_cases flows c) [
  | inl (e, done) ↦ rw (e, drain, done) refl
  | inr (i, d, x, rest, e, p) ↦
      let (o', u', _) = pop_at-Owned owner flows i x rest p o u in
      rw (e, drain, p, pop_at-of_key owner k flows i x rest p o u)
        (rw (drain-of_key owner k left rest d (omega (arith, pop_at-length flows i x rest p)) o' u')
          refl)
]

-- The packets from index `i` on.
abbrev Suffix : List (List ℕ) → List (List ℕ) → ℕ → Type 0
Suffix packets ps i = (j : ℕ) → get_or packets (i + j) [] ≡ get_or ps j []

Suffix-tail :
    (packets : List (List ℕ)) (p : List ℕ) (ps : List (List ℕ)) (i : ℕ)
    → Suffix packets (p ∷ ps) i
    → Suffix packets ps (i + 1)
Suffix-tail packets p ps i h j = ap (λ k. get_or packets k []) (omega arith) ∙ h (suc j)

-- The key of the packet with an index.
abbrev pub owner : List (List ℕ) → ℕ → List ℕ
owner packets i = flow_key (get_or packets i [])

owner_head :
    (packets : List (List ℕ)) (p : List ℕ) (ps : List (List ℕ)) (i : ℕ)
    → Suffix packets (p ∷ ps) i
    → owner packets i ≡ key (packet_flow p)
owner_head packets p ps i h =
    ap flow_key (ap (λ k. get_or packets k []) (omega arith) ∙ h 0) ∙ sym (key-packet_flow p)

build-perm :
    (ps : List (List ℕ)) (i : ℕ) (flows : List (Flow ℕ))
    → Perm (items (build ps i flows)) (items flows ++ range i (length ps))
unfolding build
build-perm [] i flows = rw append-nil (Perm.refl (items flows))
build-perm (p ∷ ps) i flows =
    Perm.trans (build-perm ps (i + 1) (add_item flows (packet_flow p) (leb (length p) 256) i)) (
      Perm.trans
        (Perm.append_right (range (i + 1) (length ps))
          (add_item-perm flows (packet_flow p) (leb (length p) 256) i))
        (Perm.symm (perm_middle (items flows) (range (i + 1) (length ps)))))

module _ (packets : List (List ℕ)) where
  build-Owned :
      (ps : List (List ℕ)) (i : ℕ) (flows : List (Flow ℕ))
      → Suffix packets ps i
      → Owned (owner packets) flows
      → Distinct flows
      → Owned (owner packets) (build ps i flows) × Distinct (build ps i flows)
  unfolding build
  build-Owned [] i flows h o d = (o, d)
  build-Owned (p ∷ ps) i flows h o d =
      let (o', d') =
        add_item-Owned (owner packets) flows (packet_flow p) (leb (length p) 256) i
          (packet_flow-IsKey p) (owner_head packets p ps i h) o d in
      build-Owned ps (i + 1) _ (Suffix-tail packets p ps i h) o' d'

  build-of_key :
      (k : List ℕ) (ps : List (List ℕ)) (i : ℕ) (flows : List (Flow ℕ))
      → Suffix packets ps i
      → Owned (owner packets) flows
      → Distinct flows
      → of_key (owner packets) k (items (build ps i flows))
        ≡ of_key (owner packets) k (items flows) ++ of_key (owner packets) k (range i (length ps))
  unfolding build
  build-of_key k [] i flows h o d = rw append-nil refl
  build-of_key k (p ∷ ps) i flows h o d =
      let b = leb (length p) 256 in
      let (o', d') =
        add_item-Owned (owner packets) flows (packet_flow p) b i (packet_flow-IsKey p)
          (owner_head packets p ps i h) o d in
      build-of_key k ps (i + 1) _ (Suffix-tail packets p ps i h) o' d'
      ∙ ap (λ l. l ++ of_key (owner packets) k (range (i + 1) (length ps)))
          (add_item-of_key (owner packets) k flows (packet_flow p) b i (packet_flow-IsKey p)
            (owner_head packets p ps i h) o d)
      ∙ append_assoc (of_key (owner packets) k (items flows)) (of_key (owner packets) k (i ∷ []))
          (of_key (owner packets) k (range (i + 1) (length ps)))
      ∙ ap (◌++◌ (of_key (owner packets) k (items flows)))
          (sym (of_key-append (owner packets) k (i ∷ []) (range (i + 1) (length ps))))

length-build :
    (ps : List (List ℕ)) (i : ℕ) (flows : List (Flow ℕ))
    → length (items (build ps i flows)) ≡ length (items flows) + length ps
unfolding build
length-build [] i flows = omega arith
length-build (p ∷ ps) i flows = omega (
  arith,
  length-build ps (i + 1) (add_item flows (packet_flow p) (leb (length p) 256) i),
  add_item-length flows (packet_flow p) (leb (length p) 256) i,
)

-- The order of a batch is a permutation of the indices of its packets, whether the scheduling is
-- enabled or not.
pub schedule-perm :
    (packets : List (List ℕ)) (enabled : Bool)
    → Perm (schedule_packet_batch packets enabled) (range 0 (length packets))
unfolding schedule_packet_batch
schedule-perm packets enabled = elim (Bool-cases (not enabled || ltb (length packets) 2)) [
  | inl plain ↦ rw plain (Perm.refl (range 0 (length packets)))
  | inr fair ↦ rw fair (
      Perm.trans
        (drain-perm (length packets) (build packets 0 []) start
          (omega (arith, length-build packets 0 [])))
        (build-perm packets 0 []))
]

-- In the order of a batch the indices of the packets of any one key are those of the batch in
-- rising order, whether the scheduling is enabled or not.
pub schedule_keeps_flow_order :
    (packets : List (List ℕ)) (enabled : Bool) (k : List ℕ)
    → of_key (owner packets) k (schedule_packet_batch packets enabled)
      ≡ of_key (owner packets) k (range 0 (length packets))
unfolding schedule_packet_batch
schedule_keeps_flow_order packets enabled k =
    elim (Bool-cases (not enabled || ltb (length packets) 2)) [
      | inl plain ↦ rw plain refl
      | inr fair ↦
          let all : Suffix packets packets 0 = λ j. ap (λ m. get_or packets m []) (omega arith) in
          let (o, d) = build-Owned packets packets 0 [] all tt tt in
          rw fair (
            drain-of_key (owner packets) k (length packets) (build packets 0 []) start
              (omega (arith, length-build packets 0 [])) o d
            ∙ build-of_key packets k packets 0 [] all tt tt)
    ]
