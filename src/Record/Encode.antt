-- ===== src/Record/Encode.antt =====
-- encode_aead_record, encode_record_v4/v5, encode_padded_record_v5 and encode_envelope_record_v5 of
-- cdn/src/record.cpp.
use pacetun.Base.{
  ℕ, ◌+◌, ◌*◌, ◌%◌, List, [], ◌∷◌, ◌++◌, true, not, ◌||◌, Option, none, some, ltb, ◌==◌,
  if◌then◌else◌, length, be_bytes,
}
use pacetun.Base.Int.{ℤ, pos, negsuc}
use pacetun.Record.{
  Crypto, Wire, wire4, wire5, Result, ok, err, RecordError, key_size, sequence_exhausted,
  packet_too_large, encrypt_failed, padding_out_of_range, invalid_padded_size, rng_failed,
  invalid_envelope_flags, invalid_envelope_size, not_plain, record_padded, record_envelope,
  validate_record_shape, nonce12_label, header,
}

-- What RAND_bytes gives: two bytes for the padding's size, and the padding. `none` is a failure.
pub record Random : Type 0 where
  pub two_bytes : Option (ℕ × ℕ)
  pub fill : ℕ → Option (List ℕ)

-- The header, the ciphertext and the tag.
abbrev pub sealed : List ℕ → List ℕ → Option (List ℕ × List ℕ) → Result (List ℕ)
sealed head payload none = err encrypt_failed
sealed head payload (some (text, tag)) =
    if length text == length payload then ok (head ++ (text ++ tag)) else err encrypt_failed

abbrev pub shaped : Option RecordError → Result (List ℕ) → Result (List ℕ)
shaped none r = r
shaped (some e) r = err e

-- `((r[0] << 8) | r[1]) % (max_padding + 1)` and the padding itself.
abbrev pub padding : Random → ℕ → Option (List ℕ)
padding r max_padding = elim r.two_bytes [
  | none ↦ none
  | some (hi, lo) ↦
      let pad = (hi * 256 + lo) % (max_padding + 1) in if pad == 0 then some [] else r.fill pad
]

module _ (c : Crypto) where
  unfoldable pub encode_aead_record : Wire → List ℕ → ℕ → List ℕ → ℕ → Result (List ℕ)
  encode_aead_record w key seq payload flags =
      if not (length key == 32)
      then err key_size
      else if seq == 0
      then err sequence_exhausted
      else if ltb 65535 (length payload)
      then err packet_too_large
      else shaped (validate_record_shape w.ptt5 flags (length payload)) (
          let head = header w flags (length payload) seq in
          sealed head payload (c.seal key (nonce12_label c w key seq) head payload))

  unfoldable pub encode_record_v4 : List ℕ → ℕ → List ℕ → ℕ → Result (List ℕ)
  unfolding encode_aead_record
  encode_record_v4 key seq payload flags = encode_aead_record wire4 key seq payload flags

  unfoldable pub encode_record_v5 : List ℕ → ℕ → List ℕ → ℕ → Result (List ℕ)
  encode_record_v5 key seq payload flags = encode_aead_record wire5 key seq payload flags

  abbrev padded : List ℕ → ℕ → List ℕ → Option (List ℕ) → Result (List ℕ)
  padded key seq payload none = err rng_failed
  padded key seq payload (some pad) =
      encode_record_v5 key seq (be_bytes 2 (length payload) ++ (payload ++ pad)) record_padded

  unfoldable pub encode_padded_record_v5 : List ℕ → ℕ → List ℕ → ℤ → Random → Result (List ℕ)
  encode_padded_record_v5 key seq payload (negsuc n) r = err padding_out_of_range
  encode_padded_record_v5 key seq payload (pos max_padding) r =
      if ltb 1024 max_padding
      then err padding_out_of_range
      else if max_padding == 0
      then encode_record_v5 key seq payload 0
      else if ltb (length payload) 20 || ltb 65535 (length payload + 2 + max_padding)
      then err invalid_padded_size
      else padded key seq payload (padding r max_padding)

  abbrev enveloped : List ℕ → ℕ → List ℕ → ℕ → Option (List ℕ) → Result (List ℕ)
  enveloped key seq payload flags none = err rng_failed
  enveloped key seq payload flags (some pad) =
      encode_record_v5 key seq (flags ∷ (be_bytes 2 (length payload) ++ (payload ++ pad)))
        record_envelope

  unfoldable pub encode_envelope_record_v5 : List ℕ → ℕ → List ℕ → ℕ → ℤ → Random → Result (List ℕ)
  encode_envelope_record_v5 key seq payload flags (negsuc n) r =
      if not_plain flags then err invalid_envelope_flags else err invalid_envelope_size
  encode_envelope_record_v5 key seq payload flags (pos max_padding) r =
      if not_plain flags
      then err invalid_envelope_flags
      else if ltb 1024 max_padding || ltb 65535 (length payload + 3 + max_padding)
      then err invalid_envelope_size
      else shaped (validate_record_shape true flags (length payload))
          (enveloped key seq payload flags (padding r max_padding))
