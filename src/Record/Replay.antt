-- ===== src/Record/Replay.antt =====
-- About the sequence numbers of feed_aead, cdn/src/record.cpp.
use pacetun.Base.{
  ℕ, zero, suc, ◌+◌, ◌≤◌, ◌<◌, ◌≡◌, ◌≢◌, refl, sym, subst, if◌then◌else◌, List, [], ◌∷◌, ◌++◌, Bool,
  true, false, ◌&&◌, Option, none, some, length, drop, slice, Bool-cases, inl, inr, arith, ltb, leb,
  be_value, ◌==◌,
}
use pacetun.Record.{Crypto, Wire, RecordError, buffer_limit, Result, ok, err, nonce12_label}
use pacetun.Record.Decode.{
  Decoder, Delivered, Parsed, incomplete, rejected, found, Turn, fail, deliver, Turn-cases,
  parse_header, unwrap, hand_on, authenticated, open_record, decode_parsed, decode_one, accept,
  returned, Fed, go_on, feed_loop, feed_aead,
}

-- The big-endian sequence number of the first record in the buffer.
abbrev pub seq_field : List ℕ → ℕ
seq_field b = be_value 0 (slice 8 8 b)

-- How a turn of decoder `d` came to deliver `r` and to leave `e`.
pub record Accepted (c : Crypto) (w : Wire) (d e : Decoder) (r : Delivered) : Type 0 where
  pub flags : ℕ
  pub len : ℕ
  pub plain : List ℕ
  pub parsed : parse_header w d.max_buffer_bytes d.buffer ≡ found flags len
  pub authentic :
      c.unseal d.key
        (nonce12_label c w d.key r.seq)
        (slice 0 16 d.buffer)
        (slice 16 len d.buffer)
        (slice (16 + len) 16 d.buffer)
      ≡ some plain
  pub whole : length plain ≡ len
  pub contents : unwrap flags plain ≡ ok (r.flags, r.payload)
  pub numbered : r.seq ≡ seq_field d.buffer
  pub not_zero : r.seq ≢ 0
  pub not_replayed : (d.have_seq && leb r.seq d.highest_seq) ≡ false
  pub after : e ≡ record (accept d r.seq) { buffer = drop (32 + len) d.buffer }

hand_on_inv :
    (d : Decoder) (len seq : ℕ) (o : Result (ℕ × List ℕ)) (e : Decoder) (r : Delivered)
    → hand_on d len seq o ≡ deliver e r
    → (e ≡ record d { buffer = drop (32 + len) d.buffer })
      × (r.seq ≡ seq)
      × (o ≡ ok (r.flags, r.payload))
hand_on_inv d len seq (err x) e r h = cc
hand_on_inv d len seq (ok (flags, payload)) e r h = ground arith

module _ (c : Crypto) (w : Wire) where
  authenticated_inv :
      (d : Decoder) (flags len : ℕ) (o : Option (List ℕ)) (e : Decoder) (r : Delivered)
      → parse_header w d.max_buffer_bytes d.buffer ≡ found flags len
      → seq_field d.buffer ≢ 0
      → c.unseal d.key
          (nonce12_label c w d.key (seq_field d.buffer))
          (slice 0 16 d.buffer)
          (slice 16 len d.buffer)
          (slice (16 + len) 16 d.buffer)
        ≡ o
      → authenticated d flags len (seq_field d.buffer) o ≡ deliver e r
      → Accepted c w d e r
  authenticated_inv d flags len none e r p z u h = cc
  authenticated_inv d flags len (some plain) e r p z u h = elim (Bool-cases (length plain == len)) [
    | inr short ↦ absurd (ground arith)
    | inl whole ↦ elim (Bool-cases (d.have_seq && leb (seq_field d.buffer) d.highest_seq)) [
      | inl old ↦ absurd (ground arith)
      | inr new ↦
          let h' = rw (whole, new) at h in
          let (after, numbered, contents) =
            hand_on_inv (accept d (seq_field d.buffer)) len (seq_field d.buffer)
              (unwrap flags plain) e r h' in
          record {
            flags = flags;
            len = len;
            plain = plain;
            parsed = p;
            authentic = rw numbered u;
            whole = ground arith;
            contents = contents;
            numbered = numbered;
            not_zero = rw numbered z;
            not_replayed = rw numbered new;
            after = rw numbered after;
          }
    ]
  ]

  decode_parsed_inv :
      (d : Decoder) (p : Parsed) (e : Decoder) (r : Delivered)
      → parse_header w d.max_buffer_bytes d.buffer ≡ p
      → decode_parsed c w d p ≡ deliver e r
      → Accepted c w d e r
  unfolding open_record
  decode_parsed_inv d incomplete e r q h = cc
  decode_parsed_inv d (rejected x) e r q h = cc
  decode_parsed_inv d (found flags len) e r q h = elim (Bool-cases (seq_field d.buffer == 0)) [
    | inl nil ↦ absurd (ground arith)
    | inr num ↦ authenticated_inv d flags len _ e r q (ground arith) refl (rw num at h)
  ]

  -- What a turn that delivers a record has found and checked.
  pub decode_one_inv :
      (d e : Decoder) (r : Delivered) → decode_one c w d ≡ deliver e r → Accepted c w d e r
  unfolding decode_one
  decode_one_inv d e r h = decode_parsed_inv d _ e r refl h

-- Where a decoder stands in the numbering: whether it has accepted a record, and the highest number.
abbrev pub Position : Type 0
Position = Bool × ℕ

abbrev pub position : Decoder → Position
position d = (d.have_seq, d.highest_seq)

-- The second position is no earlier.
abbrev pub Ahead : Position → Position → Type 0
Ahead p q = p.0 ≡ true → (q.0 ≡ true) × (p.1 ≤ q.1)

-- From one position to another by records of strictly rising numbers, all above the first position.
abbrev pub Rising : Position → List Delivered → Position → Type 0
Rising p [] q = Ahead p q
Rising p (r ∷ rs) q = (p.0 ≡ true → p.1 < r.seq) × Rising (true, r.seq) rs q

abbrev pub RisingFed : Position → Fed → Type 0
RisingFed p f = Rising p f.records (position f.decoder)

pub Rising-append :
    (p q t : Position) (rs ss : List Delivered)
    → Rising p rs q
    → Rising q ss t
    → Rising p (rs ++ ss) t
Rising-append p q t [] [] h k = λ e. let (a, b) = h e in let (a', b') = k a in (a', omega arith)
Rising-append p q t [] (s ∷ ss) h k = (λ e. let (a, b) = h e in omega (arith, k.0 a), k.1)
Rising-append p q t (r ∷ rs) ss h k = (h.0, Rising-append (true, r.seq) q t rs ss h.1 k)

hand_on-Ahead :
    (d : Decoder) (len seq : ℕ) (o : Result (ℕ × List ℕ)) (e : Decoder) (x : RecordError)
    → hand_on d len seq o ≡ fail e x
    → e ≡ d
hand_on-Ahead d len seq (err y) e x h = ground arith
hand_on-Ahead d len seq (ok (flags, payload)) e x h = cc

-- A turn that fails keeps the bytes, and its position is no earlier.
abbrev pub Kept : Decoder → Decoder → Type 0
Kept d e =
    (e.buffer ≡ d.buffer)
    × (e.max_buffer_bytes ≡ d.max_buffer_bytes)
    × Ahead (position d) (position e)

authenticated-Kept :
    (d : Decoder) (flags len seq : ℕ) (o : Option (List ℕ)) (e : Decoder) (x : RecordError)
    → authenticated d flags len seq o ≡ fail e x
    → Kept d e
authenticated-Kept d flags len seq none e x h = (ground arith, ground arith, λ p. ground arith)
authenticated-Kept d flags len seq (some plain) e x h = elim (Bool-cases (length plain == len)) [
  | inr short ↦ (ground arith, ground arith, λ p. ground arith)
  | inl whole ↦ elim (Bool-cases (d.have_seq && leb seq d.highest_seq)) [
    | inl old ↦ (ground arith, ground arith, λ p. ground arith)
    | inr new ↦
        let same =
          hand_on-Ahead (accept d seq) len seq (unwrap flags plain) e x (rw (whole, new) at h) in
        (ground (arith, same), ground (arith, same), λ p. ground (arith, same))
  ]
]

module _ (c : Crypto) (w : Wire) where
  decode_parsed-Kept :
      (d : Decoder) (p : Parsed) (e : Decoder) (x : RecordError)
      → decode_parsed c w d p ≡ fail e x
      → Kept d e
  unfolding open_record
  decode_parsed-Kept d incomplete e x h = cc
  decode_parsed-Kept d (rejected y) e x h = (ground arith, ground arith, λ p. ground arith)
  decode_parsed-Kept d (found flags len) e x h = elim (Bool-cases (seq_field d.buffer == 0)) [
    | inl nil ↦ (ground arith, ground arith, λ p. ground arith)
    | inr num ↦ authenticated-Kept d flags len (seq_field d.buffer) _ e x (rw num at h)
  ]

  pub decode_one_fail : (d e : Decoder) (x : RecordError) → decode_one c w d ≡ fail e x → Kept d e
  unfolding decode_one
  decode_one_fail d e x h = decode_parsed-Kept d _ e x h

  decode_one-later :
      (d e : Decoder) (r : Delivered)
      → decode_one c w d ≡ deliver e r
      → (d.have_seq ≡ true → d.highest_seq < r.seq) × (position e ≡ (true, r.seq))
  decode_one-later d e r h =
      let a = decode_one_inv c w d e r h in (λ p. ground (arith, a.not_replayed), rw (a.after) refl)

  feed_loop-Rising : (fuel : ℕ) (d : Decoder) → RisingFed (position d) (feed_loop c w fuel d)
  unfolding feed_loop
  feed_loop-Rising zero d = λ p. (p, omega arith)
  feed_loop-Rising (suc fuel) d =
      let P = λ (t : Turn). RisingFed (position d) (go_on (feed_loop c w fuel) d t) in
      elim (Turn-cases (decode_one c w d)) [
        | inl e ↦ subst P (sym e) (λ p. (p, omega arith))
        | inr (inl (d', x, e)) ↦ subst P (sym e) (decode_one_fail d d' x e).2
        | inr (inr (d', r, e)) ↦
            let (later, at_r) = decode_one-later d d' r e in
            subst P (sym e) (
              later,
              subst (λ p. RisingFed p (feed_loop c w fuel d')) at_r (feed_loop-Rising fuel d'),
            )
      ]

  -- Whatever bytes arrive, the records that one `feed` delivers have strictly rising sequence numbers,
  -- all above those accepted before.
  pub feed-Rising : (d : Decoder) (bytes : List ℕ) → RisingFed (position d) (feed_aead c w d bytes)
  unfolding feed_aead
  feed-Rising d bytes =
      let b = d.buffer ++ bytes in
      let P = λ (over : Bool). RisingFed (position d) (
        if over
        then record { decoder = d; records = []; status = returned (some buffer_limit) }
        else feed_loop c w (suc (length b)) (record d { buffer = b })) in
      elim (Bool-cases (ltb d.max_buffer_bytes (length b))) [
        | inl over ↦ subst P (sym over) (λ p. (p, omega arith))
        | inr room ↦
            subst P (sym room) (feed_loop-Rising (suc (length b)) (record d { buffer = b }))
      ]

  -- The calls of one connection, one for each chunk that arrives.
  abbrev pub feeds : Decoder → List (List ℕ) → List Delivered × Decoder
  feeds d [] = ([], d)
  feeds d (b ∷ bs) =
      let f = feed_aead c w d b in let (rs, e) = feeds f.decoder bs in (f.records ++ rs, e)

  -- Whatever chunks of bytes arrive on a connection, the records delivered over all calls of feed
  -- have strictly rising numbers, all above those accepted before, and none above the highest
  -- number kept at the end.
  pub feeds-Rising :
      (d : Decoder) (chunks : List (List ℕ))
      → let (rs, e) = feeds d chunks in Rising (position d) rs (position e)
  feeds-Rising d [] = λ p. (p, omega arith)
  feeds-Rising d (b ∷ bs) =
      let f = feed_aead c w d b in
      Rising-append (position d) (position f.decoder) (position (feeds f.decoder bs).1) f.records
        (feeds f.decoder bs).0 (feed-Rising d b) (feeds-Rising f.decoder bs)
