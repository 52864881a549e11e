-- ===== src/Runtime/Queue.antt =====
-- The transmit queue of the TLS tunnel, cdn/src/runtime.cpp: enqueue.
use pacetun.Base.{
  ℕ, suc, ◌+◌, ◌≤◌, ◌<◌, ◌≡◌, refl, sym, ◌∙◌, List, [], ◌∷◌, ◌++◌, Bool, true, false, ◌||◌, leb,
  ltb, if_yes, if_no, subst, length, drop, length-append, add64, sub64, add64_lem, sub64_lem,
  Bool-cases, inl, inr, arith, ◌⊎◌,
}
use pacetun.Config.{Config}
use pacetun.Runtime.{Queued, Stats, TxQueue, count_drop, append, make_room, enqueue}

abbrev pub total : List Queued → ℕ
total [] = 0
total (f ∷ q) = length f.bytes + total q

total-append : (q : List Queued) (x : Queued) → total (q ++ x ∷ []) ≡ total q + length x.bytes
total-append [] x = omega arith
total-append (f ∷ q) x = let ih = total-append q x in omega (arith, ih)

-- The count is right and the limits are kept.
pub record Fits (cfg : Config) (t : TxQueue) : Type 0 where
  pub counted : t.bytes ≡ total t.packets
  pub few_bytes : t.bytes ≤ cfg.queue_bytes
  pub few_packets : length t.packets ≤ cfg.queue_packets

-- What became of the packets `old` and of `x`: `x` is refused, or it is the last behind what is left of `old`.
abbrev pub Queues : Config → Bool → List Queued → Queued → List Queued → Type 0
Queues cfg protect_front old x new =
    (((protect_front ≡ true) ⊎ (cfg.queue_bytes < length x.bytes)) × (new ≡ old))
    ⊎ ((k : ℕ) × ((new ≡ drop k old ++ x ∷ []) × ((protect_front ≡ false) ⊎ (k ≡ 0))))

module _ (cfg : Config) (x : Queued) (small : cfg.queue_bytes ≤ 2147483648)
    (one : 1 ≤ cfg.queue_packets) where
  append-Fits :
      (q : List Queued) (qb : ℕ) (st : Stats)
      → qb ≡ total q
      → qb + length x.bytes ≤ cfg.queue_bytes
      → length q < cfg.queue_packets
      → Fits cfg (append (record { packets = q; bytes = qb; stats = st }) x)
  append-Fits q qb st e h k =
      let sum = add64_lem qb (length x.bytes) (omega (arith, h, small)) in
      let all = total-append q x in
      let size = length-append q (x ∷ []) in
      record {
        counted = omega (arith, sum, all, e);
        few_bytes = omega (arith, sum, h);
        few_packets = omega (arith, size, k);
      }

  -- Nothing is in the way.
  room :
      (q : List Queued) (qb : ℕ)
      → (leb cfg.queue_packets (length q) || ltb cfg.queue_bytes (add64 qb (length x.bytes)))
        ≡ false
      → qb ≤ cfg.queue_bytes
      → length x.bytes ≤ cfg.queue_bytes
      → (qb + length x.bytes ≤ cfg.queue_bytes) × (length q < cfg.queue_packets)
  room q qb h k l =
      let sum = add64_lem qb (length x.bytes) (omega (arith, small)) in
      (ground (arith, sum), ground arith)

  one_less :
      (protect_front : Bool) (f : Queued) (q new : List Queued)
      → protect_front ≡ false
      → length x.bytes ≤ cfg.queue_bytes
      → Queues cfg protect_front q x new
      → Queues cfg protect_front (f ∷ q) x new
  one_less protect_front f q new h l (inl (inl kept, same)) = absurd (ground arith)
  one_less protect_front f q new h l (inl (inr large, same)) = absurd (omega arith)
  one_less protect_front f q new h l (inr (k, (e, o))) = inr (suc k, (e, inl h))

  make_room-Fits :
      (protect_front : Bool) (q : List Queued) (qb : ℕ) (st : Stats)
      → length x.bytes ≤ cfg.queue_bytes
      → Fits cfg (record { packets = q; bytes = qb; stats = st })
      → let r = make_room cfg protect_front x q qb st in
        Fits cfg r × Queues cfg protect_front q x r.packets
  unfolding make_room
  make_room-Fits protect_front [] qb st l h =
      (append-Fits [] qb st h.counted (omega (arith, h.counted)) one, inr (0, (refl, inr refl)))
  make_room-Fits protect_front (f ∷ q) qb st l h =
      elim (Bool-cases (
        leb cfg.queue_packets (length (f ∷ q))
        || ltb cfg.queue_bytes (add64 qb (length x.bytes)))) [
          | inr free ↦
              let (bytes, packets) = room (f ∷ q) qb free h.few_bytes l in
              rw free (append-Fits (f ∷ q) qb st h.counted bytes packets, inr (0, (refl, inr refl)))
          | inl full ↦ elim (Bool-cases protect_front) [
            | inl kept ↦
                rw (full, kept)
                  (
                    record {
                      counted = h.counted;
                      few_bytes = h.few_bytes;
                      few_packets = h.few_packets;
                    },
                    inl (inl refl, refl),
                  )
            | inr open_front ↦
                let left =
                  sub64_lem qb (length f.bytes) (omega (arith, h.counted))
                    (omega (arith, h.few_bytes)) in
                let (fits, order) =
                  make_room-Fits protect_front q (sub64 qb (length f.bytes)) (count_drop st) l
                    (record {
                      counted = omega (arith, left, h.counted);
                      few_bytes = omega (arith, left, h.few_bytes);
                      few_packets = omega (arith, h.few_packets);
                    }) in
                let e : make_room cfg protect_front x (f ∷ q) qb st
                    ≡ make_room cfg protect_front x q (sub64 qb (length f.bytes)) (count_drop st) =
                  if_yes _ _ _ full ∙ if_no protect_front _ _ open_front in
                subst (λ r. Fits cfg r × Queues cfg protect_front (f ∷ q) x r.packets) (sym e)
                  (
                    fits,
                    one_less protect_front f q
                        (make_room cfg protect_front x q (sub64 qb (length f.bytes))
                          (count_drop st)).packets
                        open_front l order,
                  )
          ]
        ]

  -- If the queue is counted right and within its limits, at least one packet is allowed and the
  -- byte limit is at most 2 ^ 31, then after enqueue the count is right and the limits are kept;
  -- either the packet is refused and the queue is as before, with a protected front or a packet
  -- above the byte limit, or the packet is last behind what is left of the queue after packets
  -- were dropped from its front, none with a protected front.
  pub enqueue-Fits :
      (t : TxQueue) (protect_front : Bool)
      → Fits cfg t
      → Fits cfg (enqueue t x cfg protect_front)
        × Queues cfg protect_front t.packets x (enqueue t x cfg protect_front).packets
  unfolding enqueue
  enqueue-Fits t protect_front h = elim (Bool-cases (ltb cfg.queue_bytes (length x.bytes))) [
    | inl large ↦
        let over : cfg.queue_bytes < length x.bytes = ground arith in
        rw large (
          record { counted = h.counted; few_bytes = h.few_bytes; few_packets = h.few_packets },
          inl (inr over, refl),
        )
    | inr fits ↦ rw fits (
        make_room-Fits protect_front t.packets t.bytes t.stats (ground arith)
          (record { counted = h.counted; few_bytes = h.few_bytes; few_packets = h.few_packets }))
  ]
