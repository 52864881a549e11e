-- ===== src/Record/RoundTrip.antt =====
-- The encoder against the decoder of one record, cdn/src/record.cpp.
use mathlib.Core.List.{append_assoc}
use pacetun.Base.{
  ℕ, ◌+◌, ◌*◌, ◌/◌, ◌%◌, ◌≤◌, ◌<◌, ◌≡◌, ◌≢◌, refl, subst, ap, ◌∙◌, List, ◌++◌, true, false, ◌&&◌,
  Option, none, some, length, drop, take, slice, length-append, take-length, drop-length, drop-add,
  Bool-cases, inl, inr, arith, ltb, leb, be_bytes, be_value, be_value-be_bytes, u64, ◌==◌,
}
use pacetun.Record.{
  Crypto, CryptoLaws, Wire, RecordError, Result, ok, nonce12_label, validate_record_shape, header,
}
use pacetun.Record.Encode.{encode_aead_record, sealed, shaped}
use pacetun.Record.Decode.{
  Decoder, found, deliver, parse_header, unwrap, open_record, decode_one, accept,
}

-- What a successful encoding is made of.
pub record Encoded (c : Crypto) (w : Wire) (key : List ℕ) (seq : ℕ) (payload : List ℕ) (flags : ℕ)
    (bytes : List ℕ) : Type 0 where
  pub text : List ℕ
  pub tag : List ℕ
  pub key_fits : length key ≡ 32
  pub numbered : seq ≢ 0
  pub small : length payload ≤ 65535
  pub shape : validate_record_shape w.ptt5 flags (length payload) ≡ none
  pub sealed_as :
      c.seal key (nonce12_label c w key seq) (header w flags (length payload) seq) payload
      ≡ some (text, tag)
  pub written : bytes ≡ header w flags (length payload) seq ++ (text ++ tag)

sealed_inv :
    (head payload : List ℕ) (o : Option (List ℕ × List ℕ)) (bytes : List ℕ)
    → sealed head payload o ≡ ok bytes
    → (text : List ℕ) × (tag : List ℕ) × (o ≡ some (text, tag)) × (bytes ≡ head ++ (text ++ tag))
sealed_inv head payload none bytes h = cc
sealed_inv head payload (some (text, tag)) bytes h = (text, tag, refl, ground arith)

shaped_inv :
    (o : Option RecordError) (r : Result (List ℕ)) (bytes : List ℕ)
    → shaped o r ≡ ok bytes
    → (o ≡ none) × (r ≡ ok bytes)
shaped_inv none r bytes h = (refl, h)
shaped_inv (some e) r bytes h = cc

module _ (c : Crypto) (w : Wire) where
  encode_inv :
      (key : List ℕ) (seq : ℕ) (payload : List ℕ) (flags : ℕ) (bytes : List ℕ)
      → encode_aead_record c w key seq payload flags ≡ ok bytes
      → Encoded c w key seq payload flags bytes
  unfolding encode_aead_record
  encode_inv key seq payload flags bytes h = elim (Bool-cases (length key == 32)) [
    | inr bad ↦ absurd (ground arith)
    | inl good ↦ elim (Bool-cases (seq == 0)) [
      | inl exhausted ↦ absurd (ground arith)
      | inr num ↦ elim (Bool-cases (ltb 65535 (length payload))) [
        | inl large ↦ absurd (ground arith)
        | inr small ↦
            let (shape, r) =
              shaped_inv (validate_record_shape w.ptt5 flags (length payload)) _ bytes
                (rw (good, num, small) at h) in
            let (text, tag, s, wr) =
              sealed_inv (header w flags (length payload) seq) payload _ bytes r in
            record {
              text = text;
              tag = tag;
              key_fits = ground arith;
              numbered = ground arith;
              small = ground arith;
              shape = shape;
              sealed_as = s;
              written = wr;
            }
      ]
    ]
  ]

  parse_header-header :
      (max_bytes flags size seq : ℕ) (z : List ℕ)
      → size ≤ 65535
      → validate_record_shape w.ptt5 flags size ≡ none
      → 32 + size ≤ max_bytes
      → 16 + size ≤ length z
      → parse_header w max_bytes (header w flags size seq ++ z) ≡ found flags size
  unfolding parse_header header be_bytes
  parse_header-header max_bytes flags size seq z h s m l =
      let e : size / 256 % 256 * 256 + size / 1 % 256 ≡ size = omega arith in rw e (ground arith)

pub take_exact : (n : ℕ) (xs ys : List ℕ) → length xs ≡ n → take n (xs ++ ys) ≡ xs
take_exact n xs ys h = subst (λ k. take k (xs ++ ys) ≡ xs) h (take-length xs ys)

pub drop_exact : (n : ℕ) (xs ys : List ℕ) → length xs ≡ n → drop n (xs ++ ys) ≡ ys
drop_exact n xs ys h = subst (λ k. drop k (xs ++ ys) ≡ ys) h (drop-length xs ys)

-- The four parts of a buffer that begins with a whole record.
module _ (h text tag rest : List ℕ) (n : ℕ) (lh : length h ≡ 16) (lx : length text ≡ n)
    (lt : length tag ≡ 16) where
  abbrev parts : List ℕ
  parts = h ++ (text ++ (tag ++ rest))

  drop_head : drop 16 parts ≡ text ++ (tag ++ rest)
  drop_head = drop_exact 16 h (text ++ (tag ++ rest)) lh

  slice_text : slice 16 n parts ≡ text
  slice_text = rw drop_head (take_exact n text (tag ++ rest) lx)

  drop_text : drop (16 + n) parts ≡ tag ++ rest
  drop_text = drop-add 16 n parts ∙ ap (drop n) drop_head ∙ drop_exact n text (tag ++ rest) lx

  slice_tag : slice (16 + n) 16 parts ≡ tag
  slice_tag = rw drop_text (take_exact 16 tag rest lt)

  drop_record : drop (32 + n) parts ≡ rest
  drop_record =
      let e : 32 + n ≡ 16 + n + 16 = omega arith in
      ap (λ k. drop k parts) e
      ∙ drop-add (16 + n) 16 parts
      ∙ ap (drop 16) drop_text
      ∙ drop_exact 16 tag rest lt

length-header : (w : Wire) (flags size seq : ℕ) → length (header w flags size seq) ≡ 16
unfolding header be_bytes
length-header w flags size seq = refl

seq-header :
    (w : Wire) (flags size seq : ℕ) (z : List ℕ)
    → slice 8 8 (header w flags size seq ++ z) ≡ be_bytes 8 seq
unfolding header be_bytes
seq-header w flags size seq z = refl

module _ (c : Crypto) (laws : CryptoLaws c) (w : Wire) where
  -- If the laws of the cryptography hold, a decoder whose buffer begins with an encoded record of
  -- a new 64-bit number, no longer than its limit, delivers the content of its payload under that
  -- number, counts the gap and keeps exactly the bytes behind the record.
  pub decode_one-encode :
      (d : Decoder) (seq : ℕ) (payload : List ℕ) (flags : ℕ) (bytes rest : List ℕ) (f : ℕ)
      (p : List ℕ)
      → encode_aead_record c w d.key seq payload flags ≡ ok bytes
      → d.buffer ≡ bytes ++ rest
      → length bytes ≤ d.max_buffer_bytes
      → seq < u64
      → (d.have_seq && leb seq d.highest_seq) ≡ false
      → unwrap flags payload ≡ ok (f, p)
      → decode_one c w d
        ≡ deliver
            (record (accept d seq) { buffer = rest })
            (record { flags = f; seq = seq; payload = p })
  unfolding decode_one open_record
  decode_one-encode d seq payload flags bytes rest f p enc buf max_ok small new un =
      let e = encode_inv c w d.key seq payload flags bytes enc in
      let n = length payload in
      let head = header w flags n seq in
      let (lx, lt) =
        laws.seal_sizes d.key (nonce12_label c w d.key seq) head payload e.text e.tag e.sealed_as in
      let lh = length-header w flags n seq in
      let z = e.text ++ (e.tag ++ rest) in
      let whole : d.buffer ≡ head ++ z =
        buf
        ∙ ap (λ b. b ++ rest) e.written
        ∙ append_assoc head (e.text ++ e.tag) rest
        ∙ ap (◌++◌ head) (append_assoc e.text e.tag rest) in
      let total = length-append head (e.text ++ e.tag) in
      let both = length-append e.text e.tag in
      let size : length bytes ≡ 32 + n =
        ap length e.written ∙ omega (arith, total, both, lx, lt, lh) in
      let room = length-append e.text (e.tag ++ rest) in
      let room' = length-append e.tag rest in
      let parsed : parse_header w d.max_buffer_bytes d.buffer ≡ found flags n =
        ap (parse_header w d.max_buffer_bytes) whole
        ∙ parse_header-header c w d.max_buffer_bytes flags n seq z e.small e.shape
            (omega (arith, size)) (omega (arith, room, room', lx, lt)) in
      let number : be_value 0 (slice 8 8 d.buffer) ≡ seq =
        ap (λ b. be_value 0 (slice 8 8 b)) whole
        ∙ ap (be_value 0) (seq-header w flags n seq z)
        ∙ be_value-be_bytes seq small in
      let not_zero : (seq == 0) ≡ false = ground (arith, e.numbered) in
      let at_head : slice 0 16 d.buffer ≡ head = ap (slice 0 16) whole ∙ take_exact 16 head z lh in
      let at_text : slice 16 n d.buffer ≡ e.text =
        ap (slice 16 n) whole ∙ slice_text head e.text e.tag rest n lh lx lt in
      let at_tag : slice (16 + n) 16 d.buffer ≡ e.tag =
        ap (slice (16 + n) 16) whole ∙ slice_tag head e.text e.tag rest n lh lx lt in
      let at_rest : drop (32 + n) d.buffer ≡ rest =
        ap (drop (32 + n)) whole ∙ drop_record head e.text e.tag rest n lh lx lt in
      let opened =
        laws.unseal-seal d.key (nonce12_label c w d.key seq) head payload e.text e.tag
          e.sealed_as in
      let same : (n == n) ≡ true = ground arith in
      rw (parsed, number, not_zero, at_head, at_text, at_tag, opened, same, new, un, at_rest) refl
