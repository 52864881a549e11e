-- ===== src/Record/Decode.antt =====
-- feed_aead of cdn/src/record.cpp, the decoder of PTT4 and PTT5. A record that is accepted is passed
-- to the callback: `feed` returns the list of these calls.
use pacetun.Base.{
  ℕ, zero, suc, ◌+◌, ◌-◌, ◌*◌, List, [], ◌∷◌, ◌++◌, Bool, true, false, not, ◌&&◌, ◌||◌, Option,
  none, some, ltb, leb, ◌==◌, if◌then◌else◌, length, drop, slice, ◌≡◌, refl, ◌⊎◌, inl, inr, add64,
  sub64, be_value,
}
use pacetun.Flow.{at}
use pacetun.Record.{
  Crypto, Wire, wire4, wire5, Result, ok, err, RecordError, buffer_limit, record_mismatch,
  record_exceeds_limit, invalid_sequence, authentication_failed, replay_detected,
  invalid_envelope_payload, invalid_padded_payload, not_plain, record_padded, record_envelope,
  validate_record_shape, nonce12_label,
}

-- RecordDecoderV4 and RecordDecoderV5 have the same members.
pub record Decoder : Type 0 where
  pub key : List ℕ
  pub buffer : List ℕ
  pub max_buffer_bytes : ℕ
  pub have_seq : Bool
  pub highest_seq : ℕ
  pub replay_drops : ℕ
  pub sequence_gaps : ℕ

-- One call of the callback.
pub record Delivered : Type 0 where
  pub flags : ℕ
  pub seq : ℕ
  pub payload : List ℕ

-- What the header of the first record in the buffer says.
pub data Parsed : Type 0 where
  incomplete : Parsed
  rejected : RecordError → Parsed
  found : ℕ → ℕ → Parsed

abbrev pub has_magic : Wire → List ℕ → Bool
has_magic w b =
    at b 0 == b'P' && at b 1 == b'T' && at b 2 == b'T' && at b 3 == w.magic4 && at b 4 == w.version

abbrev pub len_field : List ℕ → ℕ
len_field b = at b 6 * 256 + at b 7

abbrev pub fits : ℕ → List ℕ → Option RecordError → Parsed
fits max_bytes b (some e) = rejected e
fits max_bytes b none =
    if ltb max_bytes (32 + len_field b)
    then rejected record_exceeds_limit
    else if ltb (length b) (32 + len_field b)
    then incomplete
    else found (at b 5) (len_field b)

unfoldable pub parse_header : Wire → ℕ → List ℕ → Parsed
parse_header w max_bytes b =
    if ltb (length b) 16
    then incomplete
    else if not (has_magic w b)
    then rejected record_mismatch
    else fits max_bytes b (validate_record_shape w.ptt5 (at b 5) (len_field b))

-- The payload of an envelope or a padded record, with its own flags; any other is delivered whole.
abbrev pub unwrap_envelope : List ℕ → Result (ℕ × List ℕ)
unwrap_envelope plain =
    let flags = at plain 0 in
    let inner = at plain 1 * 256 + at plain 2 in
    if not_plain flags || ltb (length plain - 3) inner || ltb 1024 (length plain - 3 - inner)
    then err invalid_envelope_payload
    else elim (validate_record_shape true flags inner) [
      | some e ↦ err e
      | none ↦ ok (flags, slice 3 inner plain)
    ]

abbrev pub unwrap_padded : List ℕ → Result (ℕ × List ℕ)
unwrap_padded plain =
    let inner = at plain 0 * 256 + at plain 1 in
    if ltb inner 20 || ltb (length plain - 2) inner || ltb 1024 (length plain - 2 - inner)
    then err invalid_padded_payload
    else ok (0, slice 2 inner plain)

unfoldable pub unwrap : ℕ → List ℕ → Result (ℕ × List ℕ)
unwrap flags plain =
    if flags == record_envelope
    then unwrap_envelope plain
    else if flags == record_padded
    then unwrap_padded plain
    else ok (flags, plain)

-- One turn of the `while` loop.
pub data Turn : Type 0 where
  wait : Turn
  fail : Decoder → RecordError → Turn
  deliver : Decoder → Delivered → Turn

-- The decoder that has accepted sequence number `seq`.
abbrev pub accept : Decoder → ℕ → Decoder
accept d seq = record d {
  have_seq = true;
  highest_seq = seq;
  sequence_gaps =
      if d.have_seq && ltb (add64 d.highest_seq 1) seq
      then add64 d.sequence_gaps (sub64 (sub64 seq d.highest_seq) 1)
      else d.sequence_gaps;
}

abbrev pub hand_on : Decoder → ℕ → ℕ → Result (ℕ × List ℕ) → Turn
hand_on d len seq (err e) = fail d e
hand_on d len seq (ok (flags, payload)) =
    deliver (record d { buffer = drop (32 + len) d.buffer })
      (record { flags = flags; seq = seq; payload = payload })

-- After authentication: replay, gaps, the payload.
abbrev pub admit : Decoder → ℕ → ℕ → ℕ → List ℕ → Turn
admit d flags len seq plain =
    if d.have_seq && leb seq d.highest_seq
    then fail (record d { replay_drops = add64 d.replay_drops 1 }) replay_detected
    else hand_on (accept d seq) len seq (unwrap flags plain)

abbrev pub authenticated : Decoder → ℕ → ℕ → ℕ → Option (List ℕ) → Turn
authenticated d flags len seq none = fail d authentication_failed
authenticated d flags len seq (some plain) =
    if length plain == len then admit d flags len seq plain else fail d authentication_failed

module _ (c : Crypto) (w : Wire) where
  unfoldable pub open_record : Decoder → ℕ → ℕ → Turn
  unfolding unwrap
  open_record d flags len =
      let b = d.buffer in
      let seq = be_value 0 (slice 8 8 b) in
      if seq == 0
      then fail d invalid_sequence
      else authenticated d flags len seq (
          c.unseal d.key (nonce12_label c w d.key seq) (slice 0 16 b) (slice 16 len b)
            (slice (16 + len) 16 b))

  abbrev pub decode_parsed : Decoder → Parsed → Turn
  decode_parsed d incomplete = wait
  decode_parsed d (rejected e) = fail d e
  decode_parsed d (found flags len) = open_record d flags len

  unfoldable pub decode_one : Decoder → Turn
  unfolding parse_header open_record
  decode_one d = decode_parsed d (parse_header w d.max_buffer_bytes d.buffer)

-- How `feed` ended: `returned none` is true, `returned (some e)` is false with the error; `stuck` is no
-- result of the program, the fuel ran out.
pub data Status : Type 0 where
  returned : Option RecordError → Status
  stuck : Status

pub record Fed : Type 0 where
  pub decoder : Decoder
  pub records : List Delivered
  pub status : Status

abbrev pub with_record : Delivered → Fed → Fed
with_record r f = record f { records = r ∷ f.records }

-- The rest of the loop after a turn.
abbrev pub go_on : (Decoder → Fed) → Decoder → Turn → Fed
go_on loop d wait = record { decoder = d; records = []; status = returned none }
go_on loop d (fail d' e) = record { decoder = d'; records = []; status = returned (some e) }
go_on loop d (deliver d' r) = with_record r (loop d')

module _ (c : Crypto) (w : Wire) where
  unfoldable pub feed_loop : ℕ → Decoder → Fed
  feed_loop zero d = record { decoder = d; records = []; status = stuck }
  feed_loop (suc fuel) d = go_on (feed_loop fuel) d (decode_one c w d)

  -- Each record takes 32 bytes at least, so the bytes in the buffer bound the turns.
  unfoldable pub feed_aead : Decoder → List ℕ → Fed
  unfolding feed_loop
  feed_aead d bytes =
      let b = d.buffer ++ bytes in
      if ltb d.max_buffer_bytes (length b)
      then record { decoder = d; records = []; status = returned (some buffer_limit) }
      else feed_loop (suc (length b)) (record d { buffer = b })

-- RecordDecoderV4::feed and RecordDecoderV5::feed.
unfoldable pub feed_v4 : Crypto → Decoder → List ℕ → Fed
feed_v4 c d bytes = feed_aead c wire4 d bytes

unfoldable pub feed_v5 : Crypto → Decoder → List ℕ → Fed
feed_v5 c d bytes = feed_aead c wire5 d bytes

-- The constructors.
unfoldable pub new_decoder : List ℕ → ℕ → Decoder
new_decoder key max_bytes = record {
  key = key;
  buffer = [];
  max_buffer_bytes = max_bytes;
  have_seq = false;
  highest_seq = 0;
  replay_drops = 0;
  sequence_gaps = 0;
}

pub Turn-cases :
    (t : Turn)
    → (t ≡ wait)
      ⊎ (((d : Decoder) × (e : RecordError) × (t ≡ fail d e))
          ⊎ ((d : Decoder) × (r : Delivered) × (t ≡ deliver d r)))
Turn-cases wait = inl refl
Turn-cases (fail d e) = inr (inl (d, e, refl))
Turn-cases (deliver d r) = inr (inr (d, r, refl))
