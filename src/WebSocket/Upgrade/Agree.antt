-- ===== src/WebSocket/Upgrade/Agree.antt =====
-- The client against the server of the negotiation, cdn/src/websocket.cpp.
use pacetun.Base.{
  ℕ, suc, ◌+◌, ◌*◌, ◌≤◌, ◌≡◌, refl, sym, ap, ◌∙◌, List, [], ◌∷◌, ◌++◌, true, false, Option, some,
  length, take, drop, drop-add, slice, All, IsByte, Bool-cases, inl, inr, arith, ltb, ◌==◌,
  length-append, codes,
}
use mathlib.Core.List.{append-nil}
use pacetun.Flow.{list_eq}
use pacetun.Flow.Key.{list_eq_iff}
use pacetun.Record.{Crypto}
use pacetun.Record.RoundTrip.{take_exact, drop_exact}
use pacetun.Keys.{
  SessionKeys, hex_encode, key32_hex, key32_from_hex, mac, client_message, server_message,
  websocket_client_auth_token_v5, websocket_server_proof_v5, derive_session_keys_v5, transcript,
  expand_all,
}
use pacetun.Keys.Hex.{hex_decode-hex_encode}
use pacetun.WebSocket.Upgrade.{
  done, client_prefix, server_prefix, is_pooled, pool_bind, pool_size_error, sized_message, parts,
  find_psk, Accepted, KeyPair, client_hello, server_answer, client_keys,
}

length-hex_encode : (v : List ℕ) → length (hex_encode v) ≡ 2 * length v
unfolding hex_encode
length-hex_encode [] = refl
length-hex_encode (b ∷ v) = let ih = length-hex_encode v in omega (arith, ih)

list_eq_refl : (xs : List ℕ) → list_eq xs xs ≡ true
list_eq_refl xs = (list_eq_iff xs xs).1 refl

-- The three parts are found behind the prefix.
module _ (prefix a b t : List ℕ) (hp : length prefix ≡ 7) (ha : length a ≡ 64) (hb : length b ≡ 64)
    (ht : length t ≡ 64) where
  abbrev message : List ℕ
  message = prefix ++ (a ++ (b ++ t))

  length-message : length message ≡ 199
  length-message = omega (
    arith,
    length-append prefix (a ++ (b ++ t)),
    length-append a (b ++ t),
    length-append b t,
    hp,
    ha,
    hb,
    ht,
  )

  first_part : slice 7 64 message ≡ a
  first_part = ap (take 64) (drop_exact 7 prefix (a ++ (b ++ t)) hp) ∙ take_exact 64 a (b ++ t) ha

  behind_first : drop 71 message ≡ b ++ t
  behind_first =
      drop-add 7 64 message
      ∙ ap (drop 64) (drop_exact 7 prefix (a ++ (b ++ t)) hp)
      ∙ drop_exact 64 a (b ++ t) ha

  second_part : slice 71 64 message ≡ b
  second_part = ap (take 64) behind_first ∙ take_exact 64 b t hb

  third_part : slice 135 64 message ≡ t
  third_part =
      ap (take 64) (drop-add 71 64 message ∙ ap (drop 64) behind_first ∙ drop_exact 64 b t hb)
      ∙ ap (take 64) (sym (append-nil t))
      ∙ take_exact 64 t [] ht

  parts-message : parts prefix message ≡ some (record { nonce = a; public_hex = b; proof = t })
  unfolding parts
  parts-message =
      let size : (length message == 199) ≡ true = ground (arith, length-message) in
      let start : take 7 message ≡ prefix = take_exact 7 prefix (a ++ (b ++ t)) hp in
      rw (size, start, list_eq_refl prefix, first_part, second_part, third_part) refl

-- A key before the right one has another token.
abbrev pub Other : (List ℕ → Option (List ℕ)) → List ℕ → List ℕ → Type 0
Other want auth psk = (w : List ℕ) × ((want psk ≡ some w) × (list_eq auth w ≡ false))

find_psk-done :
    (want : List ℕ → Option (List ℕ)) (auth : List ℕ) (i : ℕ) (before : List (List ℕ))
    (psk : List ℕ) (after : List (List ℕ))
    → All (Other want auth) before
    → want psk ≡ some auth
    → find_psk want auth i (before ++ psk ∷ after) ≡ done (i + length before, psk)
unfolding find_psk
find_psk-done want auth i [] psk after h e =
    let same : i ≡ i + 0 = omega arith in rw (e, list_eq_refl auth) (ap (λ j. done (j, psk)) same)
find_psk-done want auth i (p ∷ before) psk after ((w, (has, differs)), h) e =
    let same : suc i + length before ≡ i + suc (length before) = omega arith in
    rw (has, differs)
      (find_psk-done want auth (suc i) before psk after h e ∙ ap (λ j. done (j, psk)) same)

key32_hex-some : (k : List ℕ) → length k ≡ 32 → key32_hex k ≡ some (hex_encode k)
unfolding key32_hex
key32_hex-some k h = let t : (length k == 32) ≡ true = ground arith in rw t refl

key32_from_hex-some :
    (k : List ℕ) → length k ≡ 32 → All IsByte k → key32_from_hex (hex_encode k) ≡ some k
unfolding key32_from_hex
key32_from_hex-some k h b =
    let t : (length k == 32) ≡ true = ground arith in rw (hex_decode-hex_encode k b, t) refl

module _ (c : Crypto) (psk : List ℕ) (short : length psk ≤ 2147483647) where
  key_fits : ltb 2147483647 (length psk) ≡ false
  key_fits = ground arith

  client_token :
      (host path n x : List ℕ)
      → websocket_client_auth_token_v5 c psk host path n x
        ≡ some (hex_encode (c.hmac psk (client_message host path n x)))
  unfolding websocket_client_auth_token_v5 mac
  client_token host path n x = rw key_fits refl

  server_token :
      (host path n m x y : List ℕ)
      → websocket_server_proof_v5 c psk host path n m x y
        ≡ some (hex_encode (c.hmac psk (server_message host path n m x y)))
  unfolding websocket_server_proof_v5 mac
  server_token host path n m x y = rw key_fits refl

-- Key material of the right sizes gives keys.
derive_session_keys_v5-some :
    (c : Crypto) (sha256 : List ℕ → List ℕ) (psk shared sn cn cpub spub : List ℕ)
    → length shared ≡ 32
    → length cpub ≡ 32
    → length spub ≡ 32
    → (length sn ≡ 32) × All IsByte sn
    → (length cn ≡ 32) × All IsByte cn
    → (k : SessionKeys) × (derive_session_keys_v5 c sha256 psk shared
          (hex_encode sn)
          (hex_encode cn)
          cpub
          spub
        ≡ some k)
unfolding derive_session_keys_v5
derive_session_keys_v5-some c sha256 psk shared sn cn cpub spub hs hc hp (ls, bs) (lc, bc) =
    let t1 : (length shared == 32) ≡ true = ground arith in
    let t2 : (length cpub == 32) ≡ true = ground arith in
    let t3 : (length spub == 32) ≡ true = ground arith in
    let t4 : (length sn == 32) ≡ true = ground arith in
    let t5 : (length cn == 32) ≡ true = ground arith in
    let k : SessionKeys =
      expand_all c (c.hmac (sha256 (transcript sn cn cpub spub)) (shared ++ psk))
        (codes "pacetun-v5 client-to-server") (codes "pacetun-v5 server-to-client")
        (codes "pacetun-v5 transcript-auth") in
    (k, rw (t1, t2, t3, hex_decode-hex_encode sn bs, hex_decode-hex_encode cn bc, t4, t5) refl)

sized_message-done : (text : List ℕ) → length text ≡ 199 → sized_message text ≡ done text
unfolding sized_message
sized_message-done text h = let t : ltb 1024 (length text) ≡ false = ground arith in rw t refl

pool_size_fine : (pool : ℕ) → 1 ≤ pool → pool ≤ 4 → pool_size_error pool ≡ false
unfolding pool_size_error
pool_size_fine pool h k = ground arith

-- Both sides.
module _ (c : Crypto) (sha256 : List ℕ → List ℕ) (x25519 : List ℕ → List ℕ → Option (List ℕ))
    (host path psk cn sn shared : List ℕ) (pool : ℕ) (client server : KeyPair)
    (before after : List (List ℕ)) (hmac_size : (key text : List ℕ) → length (c.hmac key text) ≡ 32)
    (key_size : length psk ≤ 2147483647) (one : 1 ≤ pool) (four : pool ≤ 4)
    (cn_fine : (length cn ≡ 32) × All IsByte cn) (sn_fine : (length sn ≡ 32) × All IsByte sn)
    (client_fine : (length client.public_key ≡ 32) × All IsByte client.public_key)
    (server_fine : (length server.public_key ≡ 32) × All IsByte server.public_key)
    (shared_size : length shared ≡ 32)
    (client_shared : x25519 client.private_key server.public_key ≡ some shared)
    (server_shared : x25519 server.private_key client.public_key ≡ some shared) where
  abbrev cnonce : List ℕ
  cnonce = hex_encode cn

  abbrev snonce : List ℕ
  snonce = hex_encode sn

  abbrev cpub : List ℕ
  cpub = hex_encode client.public_key

  abbrev spub : List ℕ
  spub = hex_encode server.public_key

  abbrev auth : List ℕ
  auth = hex_encode (c.hmac psk (client_message host path cnonce (cpub ++ pool_bind pool)))

  abbrev proof : List ℕ
  proof =
      hex_encode (c.hmac psk (server_message host path cnonce snonce cpub (spub ++ pool_bind pool)))

  abbrev hello : List ℕ
  hello = client_prefix (is_pooled pool) ++ (cnonce ++ (cpub ++ auth))

  abbrev reply : List ℕ
  reply = server_prefix (is_pooled pool) ++ (snonce ++ (spub ++ proof))

  client_prefix-seven : length (client_prefix (is_pooled pool)) ≡ 7
  client_prefix-seven = elim (Bool-cases (is_pooled pool)) [
    | inl pooled ↦ rw pooled refl
    | inr single ↦ rw single refl
  ]

  server_prefix-seven : length (server_prefix (is_pooled pool)) ≡ 7
  server_prefix-seven = elim (Bool-cases (is_pooled pool)) [
    | inl pooled ↦ rw pooled refl
    | inr single ↦ rw single refl
  ]

  sixty_four : (v : List ℕ) → length v ≡ 32 → length (hex_encode v) ≡ 64
  sixty_four v h = omega (arith, length-hex_encode v, h)

  hello_size : length hello ≡ 199
  hello_size =
      length-message (client_prefix (is_pooled pool)) cnonce cpub auth client_prefix-seven
        (sixty_four cn cn_fine.0) (sixty_four client.public_key client_fine.0)
        (sixty_four _ (hmac_size psk _))

  reply_size : length reply ≡ 199
  reply_size =
      length-message (server_prefix (is_pooled pool)) snonce spub proof server_prefix-seven
        (sixty_four sn sn_fine.0) (sixty_four server.public_key server_fine.0)
        (sixty_four _ (hmac_size psk _))

  hello-parts :
      parts (client_prefix (is_pooled pool)) hello
      ≡ some (record { nonce = cnonce; public_hex = cpub; proof = auth })
  hello-parts =
      parts-message (client_prefix (is_pooled pool)) cnonce cpub auth client_prefix-seven
        (sixty_four cn cn_fine.0) (sixty_four client.public_key client_fine.0)
        (sixty_four _ (hmac_size psk _))

  reply-parts :
      parts (server_prefix (is_pooled pool)) reply
      ≡ some (record { nonce = snonce; public_hex = spub; proof = proof })
  reply-parts =
      parts-message (server_prefix (is_pooled pool)) snonce spub proof server_prefix-seven
        (sixty_four sn sn_fine.0) (sixty_four server.public_key server_fine.0)
        (sixty_four _ (hmac_size psk _))

  client_hello-done : client_hello c sha256 x25519 host path psk pool cnonce client ≡ done hello
  unfolding client_hello
  client_hello-done =
      rw
        (
          pool_size_fine pool one four,
          key32_hex-some client.public_key client_fine.0,
          client_token c psk key_size host path cnonce (cpub ++ pool_bind pool),
        )
        (sized_message-done hello hello_size)

  module _ (keys : SessionKeys)
      (derived : derive_session_keys_v5 c sha256 psk shared snonce cnonce client.public_key
          server.public_key
        ≡ some keys) where
    abbrev accepted : Accepted
    accepted = record {
      psk_index = length before;
      client_nonce = cnonce;
      keys = keys;
      reply = reply;
    }

    server_answer-done :
        All
          (Other
            (λ p. websocket_client_auth_token_v5 c p host path cnonce (cpub ++ pool_bind pool))
            auth)
          before
        → server_answer c sha256 x25519 host path (before ++ psk ∷ after) pool snonce server hello
          ≡ done accepted
    unfolding server_answer
    server_answer-done others =
        let from_zero : 0 + length before ≡ length before = omega arith in
        rw
          (
            pool_size_fine pool one four,
            hello-parts,
            key32_from_hex-some client.public_key client_fine.0 client_fine.1,
            find_psk-done
                (λ p. websocket_client_auth_token_v5 c p host path cnonce (cpub ++ pool_bind pool))
                auth 0 before psk after others
                (client_token c psk key_size host path cnonce (cpub ++ pool_bind pool)),
            key32_hex-some server.public_key server_fine.0,
            server_token c psk key_size host path cnonce snonce cpub (spub ++ pool_bind pool),
            server_shared,
            derived,
            sized_message-done reply reply_size,
          )
          (ap
            (λ j.
              done (record { psk_index = j; client_nonce = cnonce; keys = keys; reply = reply }))
            from_zero)

    client_keys-done :
        client_keys c sha256 x25519 host path psk pool cnonce client reply ≡ done keys
    unfolding client_keys
    client_keys-done =
        rw
          (
            key32_hex-some client.public_key client_fine.0,
            reply-parts,
            key32_from_hex-some server.public_key server_fine.0 server_fine.1,
            server_token c psk key_size host path cnonce snonce cpub (spub ++ pool_bind pool),
            list_eq_refl proof,
            client_shared,
            derived,
          )
          refl

  -- If HMAC-SHA256 gives 32 bytes, the nonces are the texts of 32 bytes, the public keys of 32
  -- bytes, the X25519 secrets of both sides are the same 32 bytes, the pool size is 1 to 4, the
  -- key of the client is no longer than mac allows and stands in the list of the server behind
  -- keys that give other tokens, then the negotiation succeeds: the server accepts the first
  -- message of the client under the index of that key and with its nonce, and the client accepts
  -- the reply and derives the same session keys.
  pub upgrade_agrees :
      All
        (Other
          (λ p. websocket_client_auth_token_v5 c p host path cnonce (cpub ++ pool_bind pool))
          auth)
        before
      → (first : List ℕ) × ((a : Accepted) × ((client_hello c sha256 x25519 host path psk pool
                cnonce client
              ≡ done first)
            × ((server_answer c sha256 x25519 host path
                    (before ++ psk ∷ after)
                    pool
                    snonce
                    server
                    first
                  ≡ done a)
                × ((client_keys c sha256 x25519 host path psk pool cnonce client a.reply
                      ≡ done a.keys)
                    × ((a.psk_index ≡ length before) × (a.client_nonce ≡ cnonce))))))
  upgrade_agrees others =
      let (keys, derived) =
        derive_session_keys_v5-some c sha256 psk shared sn cn client.public_key server.public_key
          shared_size client_fine.0 server_fine.0 sn_fine cn_fine in
      (
        hello,
        (
          accepted keys derived,
          (
            client_hello-done,
            (server_answer-done keys derived others, (client_keys-done keys derived, (refl, refl))),
          ),
        ),
      )
