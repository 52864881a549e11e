-- ===== src/Record/Genuine.antt =====
-- About the records that feed_aead delivers, cdn/src/record.cpp, whatever bytes arrive.
pub mod Contents
pub mod Waiting
use pacetun.Base.{
  ℕ, zero, suc, ◌+◌, ◌-◌, ◌*◌, ◌≤◌, ◌<◌, ◌≡◌, ◌≢◌, refl, sym, ap, subst, ◌∙◌, ◌⊎◌, List, [], ◌∷◌,
  ◌++◌, true, not, none, some, length, take, drop, slice, ltb, be_value, Bool-cases, inl, inr,
  arith, take-append-drop, length-slice, drop-add,
}
use pacetun.Flow.{at}
use pacetun.Record.{Crypto, Wire, buffer_limit, nonce12_label}
use pacetun.Record.Header.{parse_header_inv}
use pacetun.Record.Decode.{
  Decoder, Delivered, Turn, deliver, has_magic, Turn-cases, decode_one, Fed, go_on, feed_loop,
  feed_aead, returned,
}
use pacetun.Record.Replay.{decode_one_inv, decode_one_fail}
use pacetun.Record.Genuine.Contents.{IsShaped, Contains, shape-IsShaped, unwrap-Contains}
use pacetun.Record.Genuine.Waiting.{Partial, decode_one-wait}

-- A record with the data of `r`, under the key and within the limit: its header, its ciphertext
-- and its tag open to a text that contains what is delivered.
pub record Genuine (c : Crypto) (w : Wire) (key : List ℕ) (max_bytes : ℕ) (r : Delivered)
    : Type 0 where
  pub head : List ℕ
  pub body : List ℕ
  pub tag : List ℕ
  pub plain : List ℕ
  pub flags : ℕ
  pub head_size : length head ≡ 16
  pub tag_size : length tag ≡ 16
  pub allowed : 32 + length body ≤ max_bytes
  pub magic : take 5 head ≡ b'P' ∷ b'T' ∷ b'T' ∷ w.magic4 ∷ w.version ∷ []
  pub flags_field : at head 5 ≡ flags
  pub len_field : at head 6 * 256 + at head 7 ≡ length body
  pub seq_field : be_value 0 (drop 8 head) ≡ r.seq
  pub not_zero : r.seq ≢ 0
  pub shaped : IsShaped w.ptt5 flags (length body)
  pub authentic : c.unseal key (nonce12_label c w key r.seq) head body tag ≡ some plain
  pub whole : length plain ≡ length body
  pub contents : Contains flags plain r.flags r.payload

-- Bytes that are the records of a list of deliveries, one behind another, and what is left.
abbrev pub Cut : Crypto → Wire → List ℕ → ℕ → List ℕ → List Delivered → List ℕ → Type 0
Cut c w key max_bytes bytes [] left = bytes ≡ left
Cut c w key max_bytes bytes (r ∷ rs) left =
    (g : Genuine c w key max_bytes r) × (rest : List ℕ) × (bytes
      ≡ g.head ++ (g.body ++ (g.tag ++ rest)))
    × Cut c w key max_bytes rest rs left

at-take : (i n : ℕ) (b : List ℕ) → i < n → at (take n b) i ≡ at b i
at-take i zero b h = absurd (omega arith)
at-take i (suc n) [] h = refl
at-take zero (suc n) (x ∷ b) h = refl
at-take (suc i) (suc n) (x ∷ b) h = at-take i n b (omega arith)

take_nil : (n : ℕ) → take {A = ℕ} n [] ≡ []
take_nil zero = refl
take_nil (suc n) = refl

drop-take : (m n : ℕ) (b : List ℕ) → drop m (take (m + n) b) ≡ take n (drop m b)
drop-take zero n b = let e : 0 + n ≡ n = omega arith in ap (λ k. take k b) e
drop-take (suc m) n [] =
    let e : suc m + n ≡ suc (m + n) = omega arith in
    ap (λ k. drop (suc m) (take k [])) e ∙ sym (take_nil n)
drop-take (suc m) n (x ∷ b) =
    let e : suc m + n ≡ suc (m + n) = omega arith in
    ap (λ k. drop (suc m) (take k (x ∷ b))) e ∙ drop-take m n b

five_bytes :
    (w : Wire) (b : List ℕ)
    → 16 ≤ length b
    → has_magic w b ≡ true
    → take 5 (take 16 b) ≡ b'P' ∷ b'T' ∷ b'T' ∷ w.magic4 ∷ w.version ∷ []
five_bytes w (p ∷ t ∷ u ∷ m ∷ v ∷ b) h e = ground arith
five_bytes w b h e = absurd (omega arith)

three_parts :
    (len : ℕ) (b : List ℕ)
    → b ≡ slice 0 16 b ++ (slice 16 len b ++ (slice (16 + len) 16 b ++ drop (32 + len) b))
three_parts len b =
    let e : 32 + len ≡ (16 + len) + 16 = omega arith in
    rw
      (
        e,
        drop-add (16 + len) 16 b,
        take-append-drop 16 (drop (16 + len) b),
        drop-add 16 len b,
        take-append-drop len (drop 16 b),
      )
      (sym (take-append-drop 16 b))

module _ (c : Crypto) (w : Wire) where
  deliver-Cut :
      (d e : Decoder) (r : Delivered) (rs : List Delivered) (left : List ℕ)
      → decode_one c w d ≡ deliver e r
      → Cut c w e.key e.max_buffer_bytes e.buffer rs left
      → Cut c w d.key d.max_buffer_bytes d.buffer (r ∷ rs) left
  deliver-Cut d e r rs left h tail =
      let a = decode_one_inv c w d e r h in
      let f = parse_header_inv w d.max_buffer_bytes d.buffer a.flags a.len a.parsed in
      let b = d.buffer in
      let body_size : length (slice 16 a.len b) ≡ a.len =
        length-slice 16 a.len b (omega (arith, f.complete)) in
      let shaped = shape-IsShaped w.ptt5 a.flags a.len f.shape in
      let head_size : length (slice 0 16 b) ≡ 16 =
        length-slice 0 16 b (omega (arith, f.complete)) in
      let g : Genuine c w d.key d.max_buffer_bytes r = record {
        head = slice 0 16 b;
        body = slice 16 a.len b;
        tag = slice (16 + a.len) 16 b;
        plain = a.plain;
        flags = a.flags;
        head_size = head_size;
        tag_size = length-slice (16 + a.len) 16 b (omega (arith, f.complete));
        allowed = rw body_size f.allowed;
        magic = five_bytes w b (omega (arith, f.complete)) f.magic;
        flags_field = at-take 5 16 b (omega arith) ∙ sym f.flags_field;
        len_field =
            rw (at-take 6 16 b (omega arith), at-take 7 16 b (omega arith), body_size)
              (sym f.len_is);
        seq_field = ap (be_value 0) (drop-take 8 8 b) ∙ sym a.numbered;
        not_zero = a.not_zero;
        shaped = rw body_size shaped;
        authentic = a.authentic;
        whole = a.whole ∙ sym body_size;
        contents =
            unwrap-Contains w.ptt5 a.flags a.plain r.flags r.payload (rw (a.whole) shaped)
              a.contents;
      } in
      (
        g,
        drop (32 + a.len) b,
        three_parts a.len b,
        subst (λ x. Cut c w x.key x.max_buffer_bytes x.buffer rs left) a.after tail,
      )

  -- What a run of the loop delivers and leaves of the buffer.
  abbrev CutFed : Decoder → Fed → Type 0
  CutFed d f =
      Cut c w d.key d.max_buffer_bytes d.buffer f.records f.decoder.buffer
      × (Partial f.decoder.buffer ⊎ (f.status ≢ returned none))

  feed_loop-Cut : (fuel : ℕ) (d : Decoder) → CutFed d (feed_loop c w fuel d)
  unfolding feed_loop
  feed_loop-Cut zero d = (refl, inr (λ e. ground arith))
  feed_loop-Cut (suc fuel) d =
      let P = λ (t : Turn). CutFed d (go_on (feed_loop c w fuel) d t) in
      elim (Turn-cases (decode_one c w d)) [
        | inl e ↦ subst P (sym e) (refl, inl (decode_one-wait c w d e))
        | inr (inl (d', x, e)) ↦
            subst P (sym e) (sym (decode_one_fail c w d d' x e).0, inr (λ s. ground arith))
        | inr (inr (d', r, e)) ↦
            let f = feed_loop c w fuel d' in
            let (tail, ends) = feed_loop-Cut fuel d' in
            subst P (sym e) (deliver-Cut d d' r f.records f.decoder.buffer e tail, ends)
      ]

  -- Whatever bytes arrive, and whatever the decoder has read before, a call of feed either finds
  -- more bytes than the limit, delivers nothing and answers with this error, or the bytes held
  -- and those that arrived are the records of what it delivers, one behind another in this order,
  -- and then the bytes left in the buffer, which are no whole record unless the call answers an
  -- error. Each of these records has a header with the magic of the wire, a size that is the
  -- length of its ciphertext, flags that go with this size, and the number delivered, which is
  -- not zero; it is within the limit, its header, ciphertext and tag open under the key and the
  -- nonce of its number to a text of the same size, and this text contains the flags and the
  -- payload delivered: as it is, behind the size and before at most 1024 bytes of padding for a
  -- padded packet, or behind flags and size for an envelope.
  pub feed-Cut :
      (d : Decoder) (bytes : List ℕ)
      → let f = feed_aead c w d bytes in
        ((length (d.buffer ++ bytes) ≤ d.max_buffer_bytes)
          × Cut c w d.key d.max_buffer_bytes (d.buffer ++ bytes) f.records f.decoder.buffer
          × (Partial f.decoder.buffer ⊎ (f.status ≢ returned none)))
        ⊎ ((d.max_buffer_bytes < length (d.buffer ++ bytes))
            × (f.records ≡ [])
            × (f.decoder ≡ d)
            × (f.status ≡ returned (some buffer_limit)))
  unfolding feed_aead
  feed-Cut d bytes =
      let b = d.buffer ++ bytes in
      elim (Bool-cases (ltb d.max_buffer_bytes (length b))) [
        | inl over ↦ rw over (inr (ground arith, refl, refl, refl))
        | inr room ↦
            let (cut, ends) = feed_loop-Cut (suc (length b)) (record d { buffer = b }) in
            rw room (inl (ground arith, cut, ends))
      ]
