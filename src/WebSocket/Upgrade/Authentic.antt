-- ===== src/WebSocket/Upgrade/Authentic.antt =====
-- What a side that accepts the other has checked, cdn/src/websocket.cpp: websocket_server_upgrade and
-- websocket_client_upgrade.
use pacetun.Base.{
  ℕ, suc, ◌-◌, ◌≤◌, ◌≡◌, refl, sym, ap, subst, ◌∙◌, List, [], ◌∷◌, ◌++◌, Option, none, some,
  get_elem?, Bool-cases, inl, inr, arith,
}
use pacetun.Flow.{list_eq}
use pacetun.Flow.Key.{list_eq_iff}
use pacetun.Record.{Crypto}
use pacetun.Keys.{
  key32_hex, key32_from_hex, derive_session_keys_v5, websocket_client_auth_token_v5,
  websocket_server_proof_v5,
}
use pacetun.WebSocket.Upgrade.{
  UpgradeError, crypto_failed, invalid_negotiation, invalid_public_key, sized_message, Answer, done,
  failed, then_done, required, client_prefix, server_prefix, is_pooled, pool_bind, pool_size_error,
  Parts, parts, find_psk, Accepted, KeyPair, accept_psk, server_answer,
}

then_done_inv :
    {A B : Type 0} (r : Answer A) (f : A → Answer B) (b : B)
    → then_done r f ≡ done b
    → (a : A) × ((r ≡ done a) × (f a ≡ done b))
then_done_inv (done a) f b h = (a, (refl, h))
then_done_inv (failed e) f b h = absurd (ground arith)

required_inv :
    {A : Type 0} (e : UpgradeError) (o : Option A) (a : A) → required e o ≡ done a → o ≡ some a
required_inv e none a h = absurd (ground arith)
required_inv e (some b) a h = ground arith

-- The key found stands where it is said to stand.
abbrev FoundAt : List (List ℕ) → ℕ → ℕ × List ℕ → Type 0
FoundAt psks i (j, psk) = (i ≤ j) × (get_elem? psks (j - i) ≡ some psk)

find_psk-FoundAt :
    (want : List ℕ → Option (List ℕ)) (auth : List ℕ) (i : ℕ) (psks : List (List ℕ))
    (r : ℕ × List ℕ)
    → find_psk want auth i psks ≡ done r
    → FoundAt psks i r × (want r.1 ≡ some auth)
unfolding find_psk
find_psk-FoundAt want auth i [] r h = absurd (ground arith)
find_psk-FoundAt want auth i (p ∷ psks) r h =
    let (w, (has, behind)) = then_done_inv (required crypto_failed (want p)) _ r h in
    let token = required_inv crypto_failed (want p) w has in
    elim (Bool-cases (list_eq auth w)) [
      | inl same ↦
          let h' : done (i, p) ≡ done r = rw same at behind in
          let e : (i, p) ≡ r = cc in
          let zero_off : i - i ≡ 0 = omega arith in
          let found : want p ≡ some auth = token ∙ ap some (sym ((list_eq_iff auth w).0 same)) in
          subst (λ q. FoundAt (p ∷ psks) i q × (want q.1 ≡ some auth)) e
            ((omega arith, rw zero_off refl), found)
      | inr other ↦
          let h' = rw other at behind in
          let ((below, there), fits) = find_psk-FoundAt want auth (suc i) psks r h' in
          let off : r.0 - i ≡ suc (r.0 - suc i) = omega (arith, below) in
          ((omega (arith, below), rw off there), fits)
    ]

module _ (c : Crypto) (sha256 : List ℕ → List ℕ) (x25519 : List ℕ → List ℕ → Option (List ℕ)) where
  -- The index and the nonce of what is accepted are those of the key and of the message.
  accept_psk_inv :
      (host path : List ℕ) (pool : ℕ) (nonce : List ℕ) (pair : KeyPair) (hello : Parts)
      (client_public : List ℕ) (i : ℕ) (psk : List ℕ) (a : Accepted)
      → accept_psk c sha256 x25519 host path pool nonce pair hello client_public (i, psk) ≡ done a
      → (a.psk_index ≡ i) × (a.client_nonce ≡ hello.nonce)
  accept_psk_inv host path pool nonce pair hello client_public i psk a h =
      let (hex, (e1, h1)) =
        then_done_inv (required crypto_failed (key32_hex pair.public_key)) _ a h in
      let want =
        websocket_server_proof_v5 c psk host path hello.nonce nonce hello.public_hex
          (hex ++ pool_bind pool) in
      let (proof, (e2, h2)) = then_done_inv (required crypto_failed want) _ a h1 in
      let (shared, (e3, h3)) =
        then_done_inv (required crypto_failed (x25519 pair.private_key client_public)) _ a h2 in
      let (keys, (e4, h4)) =
        then_done_inv
          (required crypto_failed (
            derive_session_keys_v5 c sha256 psk shared nonce hello.nonce client_public
              pair.public_key))
          _ a h3 in
      let (reply, (e5, h5)) =
        then_done_inv (sized_message (server_prefix (is_pooled pool) ++ (nonce ++ (hex ++ proof))))
          _ a h4 in
      let last : Accepted = record {
        psk_index = i;
        client_nonce = hello.nonce;
        keys = keys;
        reply = reply;
      } in
      let e : done last ≡ done a = h5 in (ground arith, ground arith)

  -- If the server accepts a first message, then the message has the form of its pool mode, the
  -- index it reports is that of a key in its list, the token in the message is the one of that
  -- key over the host, the path, the nonce and the public key of the message, and the nonce it
  -- reports is that of the message.
  pub server_answer-authentic :
      (host path : List ℕ) (psks : List (List ℕ)) (pool : ℕ) (nonce : List ℕ) (pair : KeyPair)
      (text : List ℕ) (a : Accepted)
      → server_answer c sha256 x25519 host path psks pool nonce pair text ≡ done a
      → (hello : Parts) × ((psk : List ℕ) × ((parts (client_prefix (is_pooled pool)) text
              ≡ some hello)
            × ((get_elem? psks a.psk_index ≡ some psk)
                × ((websocket_client_auth_token_v5 c psk host path hello.nonce
                        (hello.public_hex ++ pool_bind pool)
                      ≡ some hello.proof)
                    × (a.client_nonce ≡ hello.nonce)))))
  unfolding server_answer
  server_answer-authentic host path psks pool nonce pair text a h =
      elim (Bool-cases (pool_size_error pool)) [
        | inl bad ↦ let h' = rw bad at h in absurd (ground arith)
        | inr fine ↦
            let h' = rw fine at h in
            let (hello, (e1, h1)) =
              then_done_inv
                (required invalid_negotiation (parts (client_prefix (is_pooled pool)) text)) _ a
                h' in
            let (client_public, (e2, h2)) =
              then_done_inv (required invalid_public_key (key32_from_hex hello.public_hex)) _ a
                h1 in
            let want = λ (psk : List ℕ).
              websocket_client_auth_token_v5 c psk host path hello.nonce
                (hello.public_hex ++ pool_bind pool) in
            let (r, (e3, h3)) = then_done_inv (find_psk want hello.proof 0 psks) _ a h2 in
            let ((below, there), fits) = find_psk-FoundAt want hello.proof 0 psks r e3 in
            let (index, same) =
              accept_psk_inv host path pool nonce pair hello client_public r.0 r.1 a h3 in
            let at_index : r.0 - 0 ≡ a.psk_index = omega (arith, index) in
            (
              hello,
              (
                r.1,
                (
                  required_inv invalid_negotiation (parts (client_prefix (is_pooled pool)) text)
                      hello e1,
                  (subst (λ j. get_elem? psks j ≡ some r.1) at_index there, (fits, same)),
                ),
              ),
            )
      ]
