-- ===== src/Record/Session.antt =====
-- About the records that the encoders of PTT5 write, cdn/src/record.cpp.
use pacetun.Base.{
  ℕ, ◌+◌, ◌-◌, ◌*◌, ◌/◌, ◌%◌, ◌≤◌, ◌≡◌, ◌≢◌, refl, List, ◌∷◌, ◌++◌, true, false, ◌||◌, none, some,
  length, length-append, take-length, Bool-cases, Option-cases, inl, inr, arith, ltb, be_bytes,
  ◌==◌,
}
use pacetun.Base.Int.{pos}
use pacetun.Record.{
  Crypto, Wire, wire5, ok, not_plain, validate_record_shape, record_padded, record_envelope,
}
use pacetun.Record.Encode.{
  Random, encode_aead_record, encode_record_v5, padding, encode_padded_record_v5,
  encode_envelope_record_v5,
}
use pacetun.Record.Decode.{Delivered, unwrap}

-- `bytes` is an encoded record whose delivery is `r`.
pub record Carries (c : Crypto) (w : Wire) (key bytes : List ℕ) (r : Delivered) : Type 0 where
  pub flags : ℕ
  pub plain : List ℕ
  pub encoded : encode_aead_record c w key r.seq plain flags ≡ ok bytes
  pub content : unwrap flags plain ≡ ok (r.flags, r.payload)

abbrev pub delivery : ℕ → ℕ → List ℕ → Delivered
delivery flags seq payload = record { flags = flags; seq = seq; payload = payload }

unwrap_plain :
    (flags : ℕ) (payload : List ℕ)
    → flags ≢ record_envelope
    → flags ≢ record_padded
    → unwrap flags payload ≡ ok (flags, payload)
unfolding unwrap
unwrap_plain flags payload h k = ground arith

-- A record sent as it is.
pub encode_record_v5-Carries :
    (c : Crypto) (key : List ℕ) (seq : ℕ) (payload : List ℕ) (flags : ℕ) (bytes : List ℕ)
    → flags ≢ record_envelope
    → flags ≢ record_padded
    → encode_record_v5 c key seq payload flags ≡ ok bytes
    → Carries c wire5 key bytes (delivery flags seq payload)
unfolding encode_record_v5
encode_record_v5-Carries c key seq payload flags bytes h k e = record {
  flags = flags;
  plain = payload;
  encoded = e;
  content = unwrap_plain flags payload h k;
}

-- The two bytes of a size below 65536.
two_bytes_value : (n : ℕ) → n ≤ 65535 → n / 256 % 256 * 256 + n / 1 % 256 ≡ n
two_bytes_value n h = omega arith

unwrap-padded :
    (payload pad : List ℕ)
    → 20 ≤ length payload
    → length payload ≤ 65535
    → length pad ≤ 1024
    → unwrap record_padded (be_bytes 2 (length payload) ++ (payload ++ pad)) ≡ ok (0, payload)
unfolding unwrap be_bytes
unwrap-padded payload pad lo hi p =
    let n = length payload in
    let e = two_bytes_value n hi in
    let whole = length-append payload pad in rw (e, take-length payload pad) (ground (arith, whole))

unwrap-enveloped :
    (flags : ℕ) (payload pad : List ℕ)
    → not_plain flags ≡ false
    → validate_record_shape true flags (length payload) ≡ none
    → length payload ≤ 65535
    → length pad ≤ 1024
    → unwrap record_envelope (flags ∷ (be_bytes 2 (length payload) ++ (payload ++ pad)))
      ≡ ok (flags, payload)
unfolding unwrap be_bytes
unwrap-enveloped flags payload pad f s hi p =
    let n = length payload in
    let e = two_bytes_value n hi in
    let whole = length-append payload pad in
    let bytes = flags ∷ (be_bytes 2 n ++ (payload ++ pad)) in
    let fit : ltb (length bytes - 3) n ≡ false = ground (arith, whole) in
    let short : ltb 1024 (length bytes - 3 - n) ≡ false = ground (arith, whole) in
    rw (e, f, fit, short, s, e, take-length payload pad) refl

-- RAND_bytes fills what it is asked to fill.
abbrev pub Fills : Random → Type 0
Fills r = (n : ℕ) (xs : List ℕ) → r.fill n ≡ some xs → length xs ≡ n

length-padding :
    (r : Random) (max_padding : ℕ) (pad : List ℕ)
    → Fills r
    → padding r max_padding ≡ some pad
    → length pad ≤ max_padding
length-padding r m pad law h = elim (Option-cases r.two_bytes) [
  | inl e ↦ let h = rw e at h in cc
  | inr ((hi, lo), e) ↦
      let h = rw e at h in
      let n = (hi * 256 + lo) % (m + 1) in
      elim (Bool-cases (n == 0)) [
        | inl q ↦ let h = rw q at h in ground arith
        | inr q ↦ let l = law n pad (rw q at h) in omega arith
      ]
]

-- If the random source fills what it is asked to fill, the bytes of a padded record are an
-- encoded record from which the decoder takes the payload alone, with no flags.
pub encode_padded_record_v5-Carries :
    (c : Crypto) (key : List ℕ) (seq : ℕ) (payload : List ℕ) (max_padding : ℕ) (r : Random)
    (bytes : List ℕ)
    → Fills r
    → encode_padded_record_v5 c key seq payload (pos max_padding) r ≡ ok bytes
    → Carries c wire5 key bytes (delivery 0 seq payload)
unfolding encode_padded_record_v5 encode_record_v5
encode_padded_record_v5-Carries c key seq payload m r bytes law h = elim (Bool-cases (ltb 1024 m)) [
  | inl bad ↦ absurd (ground arith)
  | inr small ↦ elim (Bool-cases (m == 0)) [
    | inl no_padding ↦
        encode_record_v5-Carries c key seq payload 0 bytes (ground arith) (ground arith)
          (rw (small, no_padding) at h)
    | inr pads ↦ elim (Bool-cases (ltb (length payload) 20 || ltb 65535 (length payload + 2 + m))) [
      | inl bad ↦ absurd (ground arith)
      | inr good ↦ elim (Option-cases (padding r m)) [
        | inl bad ↦ let h = rw (small, pads, good, bad) at h in cc
        | inr (pad, e) ↦
            let l = length-padding r m pad law e in
            record {
              flags = record_padded;
              plain = be_bytes 2 (length payload) ++ (payload ++ pad);
              encoded = rw (small, pads, good, e) at h;
              content = unwrap-padded payload pad (ground arith) (ground arith) (ground arith);
            }
      ]
    ]
  ]
]

-- If the random source fills what it is asked to fill, the bytes of an envelope record are an
-- encoded record from which the decoder takes the payload and the flags given.
pub encode_envelope_record_v5-Carries :
    (c : Crypto) (key : List ℕ) (seq : ℕ) (payload : List ℕ) (flags max_padding : ℕ) (r : Random)
    (bytes : List ℕ)
    → Fills r
    → encode_envelope_record_v5 c key seq payload flags (pos max_padding) r ≡ ok bytes
    → Carries c wire5 key bytes (delivery flags seq payload)
unfolding encode_envelope_record_v5 encode_record_v5
encode_envelope_record_v5-Carries c key seq payload flags m r bytes law h =
    elim (Bool-cases (not_plain flags)) [
      | inl bad ↦ let h = rw bad at h in cc
      | inr plain ↦ elim (Bool-cases (ltb 1024 m || ltb 65535 (length payload + 3 + m))) [
        | inl bad ↦ let h = rw (plain, bad) at h in cc
        | inr good ↦ elim (Option-cases (validate_record_shape true flags (length payload))) [
          | inr (e, bad) ↦ let h = rw (plain, good, bad) at h in cc
          | inl shape ↦ elim (Option-cases (padding r m)) [
            | inl bad ↦ let h = rw (plain, good, shape, bad) at h in cc
            | inr (pad, e) ↦
                let l = length-padding r m pad law e in
                record {
                  flags = record_envelope;
                  plain = flags ∷ (be_bytes 2 (length payload) ++ (payload ++ pad));
                  encoded = rw (plain, good, shape, e) at h;
                  content =
                      unwrap-enveloped flags payload pad plain shape (ground arith) (ground arith);
                }
          ]
        ]
      ]
    ]
