-- ===== src/Record/Genuine/Waiting.antt =====
-- About the turns of feed_aead, cdn/src/record.cpp, that wait for more bytes.
use pacetun.Base.{
  ℕ, ◌+◌, ◌*◌, ◌<◌, ◌≡◌, ◌≢◌, refl, ◌⊎◌, List, ◌&&◌, Option, none, some, length, ltb, leb, ◌==◌,
  Bool-cases, inl, inr, arith,
}
use pacetun.Flow.{at}
use pacetun.Record.{Crypto, Wire, RecordError, ok, err, Result}
use pacetun.Record.Decode.{
  Decoder, wait, Parsed, incomplete, rejected, found, fits, parse_header, hand_on, authenticated,
  accept, open_record, decode_parsed, has_magic, unwrap, decode_one,
}
use pacetun.Record.Replay.{seq_field}

-- Bytes that are no whole record: no whole header, or fewer than its size asks for.
abbrev pub Partial : List ℕ → Type 0
Partial b = (length b < 16) ⊎ (length b < 32 + (at b 6 * 256 + at b 7))

fits-incomplete :
    (max_bytes : ℕ) (b : List ℕ) (o : Option RecordError)
    → fits max_bytes b o ≡ incomplete
    → Partial b
fits-incomplete max_bytes b (some e) h = absurd (ground arith)
fits-incomplete max_bytes b none h = inr (ground arith)

parse_header-incomplete :
    (w : Wire) (max_bytes : ℕ) (b : List ℕ) → parse_header w max_bytes b ≡ incomplete → Partial b
unfolding parse_header
parse_header-incomplete w max_bytes b h = elim (Bool-cases (ltb (length b) 16)) [
  | inl short ↦ inl (ground arith)
  | inr long ↦ elim (Bool-cases (has_magic w b)) [
    | inr other ↦ absurd (ground arith)
    | inl m ↦ fits-incomplete max_bytes b _ (rw (long, m) at h)
  ]
]

hand_on-ne-wait : (d : Decoder) (len seq : ℕ) (o : Result (ℕ × List ℕ)) → hand_on d len seq o ≢ wait
hand_on-ne-wait d len seq (err x) = λ h. ground arith
hand_on-ne-wait d len seq (ok (flags, payload)) = λ h. ground arith

authenticated-ne-wait :
    (d : Decoder) (flags len seq : ℕ) (o : Option (List ℕ)) → authenticated d flags len seq o ≢ wait
authenticated-ne-wait d flags len seq none = λ h. ground arith
authenticated-ne-wait d flags len seq (some plain) = λ h. elim (Bool-cases (length plain == len)) [
  | inr short ↦ ground arith
  | inl whole ↦ elim (Bool-cases (d.have_seq && leb seq d.highest_seq)) [
    | inl old ↦ ground arith
    | inr new ↦ hand_on-ne-wait (accept d seq) len seq (unwrap flags plain) (rw (whole, new) at h)
  ]
]

module _ (c : Crypto) (w : Wire) where
  -- A turn that waits has no whole record in front of it.
  decode_parsed-wait : (d : Decoder) (p : Parsed) → decode_parsed c w d p ≡ wait → p ≡ incomplete
  unfolding open_record
  decode_parsed-wait d incomplete h = refl
  decode_parsed-wait d (rejected x) h = absurd (ground arith)
  decode_parsed-wait d (found flags len) h = elim (Bool-cases (seq_field d.buffer == 0)) [
    | inl nil ↦ absurd (ground arith)
    | inr num ↦ absurd (authenticated-ne-wait d flags len (seq_field d.buffer) _ (rw num at h))
  ]

  pub decode_one-wait : (d : Decoder) → decode_one c w d ≡ wait → Partial d.buffer
  unfolding decode_one
  decode_one-wait d h =
      parse_header-incomplete w d.max_buffer_bytes d.buffer
        (decode_parsed-wait d (parse_header w d.max_buffer_bytes d.buffer) h)
