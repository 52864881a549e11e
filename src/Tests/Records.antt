-- ===== src/Tests/Records.antt =====
-- Records with a stand-in for the cryptography: no encryption, and a constant tag.
use pacetun.Base.{
  ℕ, zero, suc, ap, add64, be_value, ◌≡◌, ◌≢◌, ◌≤◌, ◌<◌, ◌⊎◌, refl, List, [], ◌∷◌, ◌++◌, false,
  none, some, if◌then◌else◌, length, replicate, be_bytes, arith,
}
use pacetun.Base.Int.{pos}
use pacetun.Flow.{list_eq}
use pacetun.Record.{
  Crypto, CryptoLaws, wire5, buffer_limit, ok, header, validate_record_shape, record_padded,
  record_envelope,
}
use pacetun.Record.Encode.{
  Random, encode_aead_record, encode_record_v5, encode_padded_record_v5, encode_envelope_record_v5,
}
use pacetun.Record.Decode.{
  Decoder, Delivered, unwrap, decode_one, returned, stuck, feed_aead, new_decoder,
}
use pacetun.Record.Genuine.{Cut, feed-Cut}
use pacetun.Record.Genuine.Waiting.{Partial}
use pacetun.Record.Replay.{Rising, position, feeds, feeds-Rising}
use pacetun.Record.Session.{
  Carries, delivery, Fills, encode_padded_record_v5-Carries, encode_envelope_record_v5-Carries,
}
use pacetun.Record.Delivery.{Sent, nothing, more, Done, feed-Sent}
use pacetun.Record.Stream.{
  with_records, WithinLimit, feed_aead-ne-stuck, feed-WithinLimit, feed-append,
}

abbrev seven : List ℕ
seven = replicate 16 7

abbrev toy : Crypto
toy = record {
  hmac = λ key text. replicate 32 0;
  seal = λ key nonce head plain. some (plain, seven);
  unseal = λ key nonce head text tag. if list_eq tag seven then some text else none;
}

toy-CryptoLaws : CryptoLaws toy
unfolding list_eq
toy-CryptoLaws = record {
  seal_sizes = λ key nonce head plain text tag e.
      let t : text ≡ plain = cc in let g : tag ≡ seven = cc in (rw t refl, rw g refl);
  unseal-seal = λ key nonce head plain text tag e.
      let t : text ≡ plain = cc in let g : tag ≡ seven = cc in rw (t, g) refl;
}

abbrev key : List ℕ
key = replicate 32 1

abbrev payload : List ℕ
payload = replicate 20 9

abbrev record_of : ℕ → ℕ → List ℕ → List ℕ
record_of flags seq plain = header wire5 flags (length plain) seq ++ (plain ++ seven)

abbrev decoder : List ℕ → Decoder
decoder b = record (new_decoder key 4096) { buffer = b }

encoded : encode_aead_record toy wire5 key 3 payload 0 ≡ ok (record_of 0 3 payload)
unfolding encode_aead_record validate_record_shape header
encoded = refl

plain_content : unwrap 0 payload ≡ ok (0, payload)
unfolding unwrap
plain_content = refl

-- Two bytes of padding.
abbrev random : Random
random = record { two_bytes = some (0, 2); fill = λ n. some (replicate n 5) }

length-replicate : (n : ℕ) → length (replicate {A = ℕ} n 5) ≡ n
length-replicate zero = refl
length-replicate (suc n) = ap suc (length-replicate n)

random-Fills : Fills random
random-Fills n xs e = let t : xs ≡ replicate n 5 = cc in rw t (length-replicate n)

padded :
    encode_padded_record_v5 toy key 4 payload (pos 7) random
    ≡ ok (record_of record_padded 4 (0 ∷ 20 ∷ (payload ++ (5 ∷ 5 ∷ []))))
unfolding encode_padded_record_v5 encode_record_v5 encode_aead_record validate_record_shape header
    be_bytes
padded = refl

encode_padded_record_v5-Carries_example :
    Carries toy wire5 key
      (record_of record_padded 4 (0 ∷ 20 ∷ (payload ++ (5 ∷ 5 ∷ []))))
      (delivery 0 4 payload)
encode_padded_record_v5-Carries_example =
    encode_padded_record_v5-Carries toy key 4 payload 7 random
      (record_of record_padded 4 (0 ∷ 20 ∷ (payload ++ (5 ∷ 5 ∷ [])))) random-Fills padded

abbrev ping : List ℕ
ping = replicate 8 3

enveloped :
    encode_envelope_record_v5 toy key 9 ping 2 (pos 7) random
    ≡ ok (record_of record_envelope 9 (2 ∷ 0 ∷ 8 ∷ (ping ++ (5 ∷ 5 ∷ []))))
unfolding encode_envelope_record_v5 encode_record_v5 encode_aead_record validate_record_shape header
    be_bytes
enveloped = refl

encode_envelope_record_v5-Carries_example :
    Carries toy wire5 key
      (record_of record_envelope 9 (2 ∷ 0 ∷ 8 ∷ (ping ++ (5 ∷ 5 ∷ []))))
      (delivery 2 9 ping)
encode_envelope_record_v5-Carries_example =
    encode_envelope_record_v5-Carries toy key 9 ping 2 7 random
      (record_of record_envelope 9 (2 ∷ 0 ∷ 8 ∷ (ping ++ (5 ∷ 5 ∷ [])))) random-Fills enveloped

-- The two records behind one another.
abbrev stream : List ℕ
stream =
    record_of record_padded 4 (0 ∷ 20 ∷ (payload ++ (5 ∷ 5 ∷ [])))
    ++ (record_of record_envelope 9 (2 ∷ 0 ∷ 8 ∷ (ping ++ (5 ∷ 5 ∷ []))) ++ [])

abbrev received : List Delivered
received = delivery 0 4 payload ∷ delivery 2 9 ping ∷ []

stream-Sent : Sent toy wire5 key (false, 0) stream received
stream-Sent =
    more (delivery 0 4 payload) (record_of record_padded 4 (0 ∷ 20 ∷ (payload ++ (5 ∷ 5 ∷ []))))
      (record_of record_envelope 9 (2 ∷ 0 ∷ 8 ∷ (ping ++ (5 ∷ 5 ∷ []))) ++ [])
      (delivery 2 9 ping ∷ []) encode_padded_record_v5-Carries_example (λ e. cc) (omega arith)
      (more (delivery 2 9 ping) (record_of record_envelope 9 (2 ∷ 0 ∷ 8 ∷ (ping ++ (5 ∷ 5 ∷ []))))
        [] [] encode_envelope_record_v5-Carries_example (λ e. omega arith) (omega arith) nothing)

feed-Sent_example : Done received (feed_aead toy wire5 (decoder []) stream)
unfolding new_decoder header be_bytes
feed-Sent_example =
    feed-Sent toy toy-CryptoLaws wire5 (decoder []) stream received refl stream-Sent (omega arith)

feed-Cut_example :
    let f = feed_aead toy wire5 (decoder []) stream in
    ((length ((decoder []).buffer ++ stream) ≤ (decoder []).max_buffer_bytes)
      × Cut toy wire5
          (decoder []).key
          (decoder []).max_buffer_bytes
          ((decoder []).buffer ++ stream)
          f.records
          f.decoder.buffer
      × (Partial f.decoder.buffer ⊎ (f.status ≢ returned none)))
    ⊎ (((decoder []).max_buffer_bytes < length ((decoder []).buffer ++ stream))
        × (f.records ≡ [])
        × (f.decoder ≡ decoder [])
        × (f.status ≡ returned (some buffer_limit)))
feed-Cut_example = feed-Cut toy wire5 (decoder []) stream

feeds-Rising_example :
    let (rs, e) = feeds toy wire5 (decoder []) (stream ∷ stream ∷ []) in
    Rising (position (decoder [])) rs (position e)
feeds-Rising_example = feeds-Rising toy wire5 (decoder []) (stream ∷ stream ∷ [])

feed_aead-ne-stuck_example : (feed_aead toy wire5 (decoder []) stream).status ≢ stuck
feed_aead-ne-stuck_example = feed_aead-ne-stuck toy wire5 (decoder []) stream

feed-WithinLimit_example :
    let e = (feed_aead toy wire5 (decoder []) stream).decoder in
    WithinLimit e × (e.max_buffer_bytes ≡ (decoder []).max_buffer_bytes)
unfolding new_decoder
feed-WithinLimit_example = feed-WithinLimit toy wire5 (decoder []) stream (omega arith)

feed-append_example :
    let f = feed_aead toy wire5 (decoder []) (record_of 0 3 payload) in
    let whole = feed_aead toy wire5 (decoder []) (record_of 0 3 payload ++ (80 ∷ 84 ∷ [])) in
    (f.status ≡ returned none
      → whole ≡ with_records f.records (feed_aead toy wire5 f.decoder (80 ∷ 84 ∷ [])))
    × (f.status ≢ returned none → (whole.records ≡ f.records) × (whole.status ≡ f.status))
unfolding new_decoder header be_bytes
feed-append_example =
    feed-append toy wire5 (decoder []) (record_of 0 3 payload) (80 ∷ 84 ∷ []) (omega arith)

-- The same bytes again are a replay.
replayed_run :
    (feeds toy wire5
      (decoder [])
      (record_of 0 3 payload ∷ record_of 0 3 payload ∷ [])).1.replay_drops
    ≡ 1
unfolding feed_aead decode_one unwrap validate_record_shape new_decoder header be_bytes list_eq
    be_value add64
replayed_run = refl
