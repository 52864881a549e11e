-- ===== src/Record.antt =====
-- cdn/src/record.cpp: the PTT4 and PTT5 record formats, an authenticated stream of numbered records.
-- The cryptography of OpenSSL is the parameter `Crypto`.
pub mod Encode
pub mod Decode
pub mod Header
pub mod RoundTrip
pub mod Replay
pub mod Genuine
pub mod Stream
pub mod Session
pub mod Delivery
use pacetun.Base.{
  ℕ, ◌+◌, ◌/◌, ◌≡◌, List, [], ◌∷◌, ◌++◌, Bool, true, false, not, ◌&&◌, ◌||◌, Option, none, some,
  ltb, ◌==◌, if◌then◌else◌, length, take, be_bytes, codes,
}

-- HMAC-SHA256, and ChaCha20-Poly1305 on a key, a nonce, the additional data and the text. Sealing
-- gives the ciphertext and the tag; opening gives the text, or nothing if the tag is wrong.
pub record Crypto : Type 0 where
  pub hmac : List ℕ → List ℕ → List ℕ
  pub seal : List ℕ → List ℕ → List ℕ → List ℕ → Option (List ℕ × List ℕ)
  pub unseal : List ℕ → List ℕ → List ℕ → List ℕ → List ℕ → Option (List ℕ)

-- What OpenSSL documents: the sizes, and that opening undoes sealing.
pub record CryptoLaws (c : Crypto) : Type 0 where
  pub seal_sizes :
      (key nonce aad plain text tag : List ℕ)
      → c.seal key nonce aad plain ≡ some (text, tag)
      → (length text ≡ length plain) × (length tag ≡ 16)
  pub unseal-seal :
      (key nonce aad plain text tag : List ℕ)
      → c.seal key nonce aad plain ≡ some (text, tag)
      → c.unseal key nonce aad text tag ≡ some plain

pub data RecordError : Type 0 where
  invalid_envelope_length invalid_padded_length invalid_drain_length : RecordError
  unknown_flags ambiguous_flags invalid_inner_length : RecordError
  invalid_keepalive invalid_control : RecordError
  key_size sequence_exhausted packet_too_large encrypt_failed : RecordError
  padding_out_of_range invalid_padded_size rng_failed : RecordError
  invalid_envelope_flags invalid_envelope_size : RecordError
  buffer_limit record_mismatch record_exceeds_limit invalid_sequence : RecordError
  authentication_failed replay_detected : RecordError
  invalid_envelope_payload invalid_padded_payload : RecordError

pub data Result {ℓ} (A : Type ℓ) : Type ℓ where
  ok : A → Result A
  err : RecordError → Result A

abbrev pub record_keepalive : ℕ
record_keepalive = 0x01

abbrev pub record_ping : ℕ
record_ping = 0x02

abbrev pub record_pong : ℕ
record_pong = 0x04

abbrev pub record_drain : ℕ
record_drain = 0x08

abbrev pub record_padded : ℕ
record_padded = 0x10

abbrev pub record_envelope : ℕ
record_envelope = 0x20

-- The arguments by which PTT4 and PTT5 differ. `ptt5` is the test of the wire name.
pub record Wire : Type 0 where
  pub ptt5 : Bool
  pub magic4 : ℕ
  pub version : ℕ
  pub nonce_label : List ℕ

abbrev pub wire4 : Wire
wire4 = record { ptt5 = false; magic4 = b'4'; version = 4; nonce_label = codes "pacetun-v4-nonce" }

abbrev pub wire5 : Wire
wire5 = record { ptt5 = true; magic4 = b'5'; version = 5; nonce_label = codes "pacetun-v5-nonce" }

-- `flags!=0&&flags!=RECORD_KEEPALIVE&&flags!=RECORD_PING&&flags!=RECORD_PONG`
abbrev pub not_plain : ℕ → Bool
not_plain flags =
    not (flags == 0)
    && not (flags == record_keepalive)
    && not (flags == record_ping)
    && not (flags == record_pong)

-- The flags of one bit or none, below the envelope flags. `flags & ~7` is `flags / 8`.
abbrev pub plain_shape : ℕ → ℕ → Option RecordError
plain_shape flags len =
    if not (flags / 8 == 0)
    then some unknown_flags
    else if not_plain flags
    then some ambiguous_flags
    else if flags == 0 && ltb len 20
    then some invalid_inner_length
    else if flags == record_keepalive && not (len == 0)
    then some invalid_keepalive
    else if (flags == record_ping || flags == record_pong) && not (len == 8)
    then some invalid_control
    else none

-- The exception that validate_record_shape throws, if any.
unfoldable pub validate_record_shape : Bool → ℕ → ℕ → Option RecordError
validate_record_shape ptt5 flags len =
    if flags == record_envelope && ptt5
    then (if ltb len 3 then some invalid_envelope_length else none)
    else if flags == record_padded && ptt5
    then (if ltb len 22 then some invalid_padded_length else none)
    else if flags == record_drain && ptt5
    then (if not (len == 0) then some invalid_drain_length else none)
    else plain_shape flags len

-- nonce12_label: four bytes of the label's MAC, and the sequence number.
unfoldable pub nonce12_label : Crypto → Wire → List ℕ → ℕ → List ℕ
nonce12_label c w key seq = take 4 (c.hmac key w.nonce_label) ++ be_bytes 8 seq

-- The sixteen bytes in front of a record.
unfoldable pub header : Wire → ℕ → ℕ → ℕ → List ℕ
header w flags size seq =
    b'P' ∷ b'T' ∷ b'T' ∷ w.magic4 ∷ w.version ∷ flags ∷ (be_bytes 2 size ++ be_bytes 8 seq)
