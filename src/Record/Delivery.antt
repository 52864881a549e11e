-- ===== src/Record/Delivery.antt =====
-- cdn/src/record.cpp, a decoder that is given what the encoders of the other side wrote.
use pacetun.Base.{
  ℕ, ◌≤◌, ◌<◌, ◌≡◌, refl, sym, subst, ap, ◌∙◌, List, [], ◌∷◌, ◌++◌, true, false, ◌&&◌, none, length,
  length-append, Bool-cases, inl, inr, arith, ltb, leb, u64,
}
use pacetun.Record.{Crypto, CryptoLaws, Wire, ok}
use pacetun.Record.Encode.{encode_aead_record}
use pacetun.Record.Decode.{
  Decoder, Delivered, wait, decode_one, parse_header, returned, Fed, go_on, feed_aead, accept,
}
use pacetun.Record.Replay.{Position, position}
use pacetun.Record.RoundTrip.{decode_one-encode}
use pacetun.Record.Session.{Carries}
use pacetun.Record.Stream.Loop.{loop, loop-step}

-- `bytes` is a run of encoded records that deliver `rs`, of rising 64-bit numbers above `p`.
pub data Sent (c : Crypto) (w : Wire) (key : List ℕ)
    : Position → List ℕ → List Delivered → Type 0 where
  nothing : {p : Position} → Sent c w key p [] []
  more :
      {p : Position} (r : Delivered) (bytes rest : List ℕ) (rs : List Delivered)
      → Carries c w key bytes r
      → (p.0 ≡ true → p.1 < r.seq)
      → r.seq < u64
      → Sent c w key (true, r.seq) rest rs
      → Sent c w key p (bytes ++ rest) (r ∷ rs)

-- All of `rs` came out, no error, and nothing is left over.
abbrev pub Done : List Delivered → Fed → Type 0
Done rs f = (f.records ≡ rs) × (f.status ≡ returned none) × (f.decoder.buffer ≡ [])

module _ (c : Crypto) (laws : CryptoLaws c) (w : Wire) where
  empty_wait : (d : Decoder) → d.buffer ≡ [] → decode_one c w d ≡ wait
  unfolding decode_one parse_header
  empty_wait d h = rw h refl

  loop-Sent :
      (key : List ℕ) (d : Decoder) (p : Position) (bytes : List ℕ) (rs : List Delivered)
      → Sent c w key p bytes rs
      → key ≡ d.key
      → p ≡ position d
      → d.buffer ≡ bytes
      → length bytes ≤ d.max_buffer_bytes
      → Done rs (loop c w d)
  loop-Sent key d p [] [] nothing k at b m =
      subst (Done []) (sym (loop-step c w d ∙ ap (go_on (loop c w) d) (empty_wait d b)))
        (refl, refl, b)
  loop-Sent key d p _ _ (more r bytes rest rs carried above small s) k at b m =
      let total = length-append bytes rest in
      let new : (d.have_seq && leb r.seq d.highest_seq) ≡ false = elim (Bool-cases d.have_seq) [
        | inr fresh ↦ rw fresh refl
        | inl seen ↦
            let q : d.highest_seq < r.seq = subst (λ z. z.0 ≡ true → z.1 < r.seq) at above seen in
            ground arith
      ] in
      let e = record (accept d r.seq) { buffer = rest } in
      let turn =
        decode_one-encode c laws w d r.seq carried.plain carried.flags bytes rest r.flags r.payload
          (subst (λ j. encode_aead_record c w j r.seq carried.plain carried.flags ≡ ok bytes) k
            carried.encoded)
          b (omega (arith, total)) small new carried.content in
      subst (Done (r ∷ rs)) (sym (loop-step c w d ∙ ap (go_on (loop c w) d) turn)) (
        let (x, y, z) =
          loop-Sent key e (true, r.seq) rest rs s k refl refl (omega (arith, total)) in
        (ap (◌∷◌ r) x, y, z))

  -- If the laws of the cryptography hold, a decoder with an empty buffer that is given a run of
  -- encoded records of strictly rising 64-bit numbers, all above the ones it accepted, no longer
  -- than its limit, delivers exactly the payloads sent, in order, returns without an error and
  -- keeps no byte.
  pub feed-Sent :
      (d : Decoder) (bytes : List ℕ) (rs : List Delivered)
      → d.buffer ≡ []
      → Sent c w d.key (position d) bytes rs
      → length bytes ≤ d.max_buffer_bytes
      → Done rs (feed_aead c w d bytes)
  unfolding feed_aead
  feed-Sent d bytes rs b s m =
      let open_buffer : ltb d.max_buffer_bytes (length bytes) ≡ false = ground arith in
      rw (b, open_buffer)
        (loop-Sent d.key (record d { buffer = bytes }) (position d) bytes rs s refl refl refl m)
