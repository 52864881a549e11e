-- ===== src/Record/Stream/Prefix.antt =====
-- About a turn of feed_aead, cdn/src/record.cpp, with more bytes behind the record.
use pacetun.Base.{
  ℕ, ◌+◌, ◌≤◌, ◌<◌, ◌≡◌, ◌≢◌, refl, List, ◌++◌, false, ◌&&◌, Option, none, some, length, slice,
  get_or-append, drop-append, slice-append, length-append, Bool-cases, inl, inr, arith, ltb, leb,
  be_value, ◌==◌,
}
use pacetun.Flow.{at}
use pacetun.Record.{Crypto, Wire, RecordError, Result, ok, err, validate_record_shape}
use pacetun.Record.Header.{parse_header_inv}
use pacetun.Record.Decode.{
  Decoder, Parsed, incomplete, rejected, found, Turn, wait, fail, deliver, parse_header, fits,
  has_magic, len_field, unwrap, hand_on, authenticated, open_record, decode_parsed, decode_one,
  accept,
}

-- The decoder with more bytes in its buffer.
abbrev pub extend : List ℕ → Decoder → Decoder
extend y d = record d { buffer = d.buffer ++ y }

abbrev pub extend_turn : List ℕ → Turn → Turn
extend_turn y wait = wait
extend_turn y (fail d e) = fail (extend y d) e
extend_turn y (deliver d r) = deliver (extend y d) r

at-append : (b y : List ℕ) (i : ℕ) → i < length b → at (b ++ y) i ≡ at b i
at-append b y i h = get_or-append b y i 0 h

fits-append :
    (max_bytes : ℕ) (b y : List ℕ) (o : Option RecordError)
    → 16 ≤ length b
    → fits max_bytes b o ≢ incomplete
    → fits max_bytes (b ++ y) o ≡ fits max_bytes b o
fits-append max_bytes b y (some e) h n = refl
fits-append max_bytes b y none h n =
    rw
      (
        at-append b y 5 (omega arith),
        at-append b y 6 (omega arith),
        at-append b y 7 (omega arith),
        length-append b y,
      )
      (ground arith)

parse_header-append :
    (w : Wire) (max_bytes : ℕ) (b y : List ℕ)
    → parse_header w max_bytes b ≢ incomplete
    → parse_header w max_bytes (b ++ y) ≡ parse_header w max_bytes b
unfolding parse_header
parse_header-append w max_bytes b y n = elim (Bool-cases (ltb (length b) 16)) [
  | inl short ↦ absurd (n (rw short refl))
  | inr long ↦
      let h : 16 ≤ length b = ground arith in
      let long' : ltb (length (b ++ y)) 16 ≡ false = rw (length-append b y) (ground arith) in
      rw
        (
          long,
          long',
          at-append b y 0 (omega arith),
          at-append b y 1 (omega arith),
          at-append b y 2 (omega arith),
          at-append b y 3 (omega arith),
          at-append b y 4 (omega arith),
          at-append b y 5 (omega arith),
          at-append b y 6 (omega arith),
          at-append b y 7 (omega arith),
        )
        (elim (Bool-cases (has_magic w b)) [
          | inr other ↦ rw other refl
          | inl m ↦ rw m (
              fits-append max_bytes b y (validate_record_shape w.ptt5 (at b 5) (len_field b)) h
                (rw (long, m) at n))
        ])
]

hand_on-extend :
    (d : Decoder) (y : List ℕ) (len seq : ℕ) (o : Result (ℕ × List ℕ))
    → 32 + len ≤ length d.buffer
    → hand_on (extend y d) len seq o ≡ extend_turn y (hand_on d len seq o)
hand_on-extend d y len seq (err e) h = refl
hand_on-extend d y len seq (ok (flags, payload)) h = rw (drop-append (32 + len) d.buffer y h) refl

authenticated-extend :
    (d : Decoder) (y : List ℕ) (flags len seq : ℕ) (o : Option (List ℕ))
    → 32 + len ≤ length d.buffer
    → authenticated (extend y d) flags len seq o ≡ extend_turn y (authenticated d flags len seq o)
authenticated-extend d y flags len seq none h = refl
authenticated-extend d y flags len seq (some plain) h = elim (Bool-cases (length plain == len)) [
  | inr short ↦ rw short refl
  | inl whole ↦ rw whole (elim (Bool-cases (d.have_seq && leb seq d.highest_seq)) [
    | inl old ↦ rw old refl
    | inr new ↦ rw new (hand_on-extend (accept d seq) y len seq (unwrap flags plain) h)
  ])
]

module _ (c : Crypto) (w : Wire) where
  open_record-extend :
      (d : Decoder) (y : List ℕ) (flags len : ℕ)
      → 32 + len ≤ length d.buffer
      → open_record c w (extend y d) flags len ≡ extend_turn y (open_record c w d flags len)
  unfolding open_record
  open_record-extend d y flags len h =
      rw
        (
          slice-append 8 8 d.buffer y (omega arith),
          slice-append 0 16 d.buffer y (omega arith),
          slice-append 16 len d.buffer y (omega arith),
          slice-append (16 + len) 16 d.buffer y (omega arith),
        )
        (elim (Bool-cases (be_value 0 (slice 8 8 d.buffer) == 0)) [
          | inl nil ↦ rw nil refl
          | inr num ↦
              rw num (authenticated-extend d y flags len (be_value 0 (slice 8 8 d.buffer)) _ h)
        ])

  decode_parsed-extend :
      (d : Decoder) (y : List ℕ) (p : Parsed)
      → parse_header w d.max_buffer_bytes d.buffer ≡ p
      → decode_parsed c w (extend y d) p ≡ extend_turn y (decode_parsed c w d p)
  decode_parsed-extend d y incomplete e = refl
  decode_parsed-extend d y (rejected x) e = refl
  decode_parsed-extend d y (found flags len) e =
      open_record-extend d y flags len
        (parse_header_inv w d.max_buffer_bytes d.buffer flags len e).complete

  -- A turn that does not wait takes the same record whatever stands behind it.
  pub decode_one-extend :
      (d : Decoder) (y : List ℕ)
      → decode_one c w d ≢ wait
      → decode_one c w (extend y d) ≡ extend_turn y (decode_one c w d)
  unfolding decode_one
  decode_one-extend d y n =
      let same = parse_header-append w d.max_buffer_bytes d.buffer y (λ e. n (rw e refl)) in
      rw same (decode_parsed-extend d y (parse_header w d.max_buffer_bytes d.buffer) refl)
