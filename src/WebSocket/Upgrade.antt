-- ===== src/WebSocket/Upgrade.antt =====
-- The negotiation behind the HTTP upgrade, cdn/src/websocket.cpp: the messages of websocket_client_upgrade and
-- websocket_server_upgrade, confirmation_mac and trial_message. SHA-256 and x25519_shared_secret are parameters,
-- the key pairs and nonces that are generated are arguments.
pub mod Agree
pub mod Authentic
use pacetun.Base.{
  ℕ, suc, ◌+◌, ◌*◌, List, [], ◌∷◌, ◌++◌, Bool, true, false, not, ◌&&◌, ◌||◌, Option, none, some,
  ltb, leb, ◌==◌, if◌then◌else◌, length, take, slice, codes,
}
use pacetun.Flow.{list_eq}
use pacetun.Record.{Crypto}
use pacetun.Keys.{
  SessionKeys, key32_hex, key32_from_hex, websocket_client_auth_token_v5, websocket_server_proof_v5,
  derive_session_keys_v5,
}

pub data UpgradeError : Type 0 where
  invalid_pool_size oversized_handshake invalid_negotiation invalid_public_key
        authentication_failed :
      UpgradeError
  -- The exceptions of cdn/src/record.cpp.
  crypto_failed : UpgradeError

pub data Answer (A : Type 0) : Type 0 where
  done : A → Answer A
  failed : UpgradeError → Answer A

abbrev pub then_done : {A B : Type 0} → Answer A → (A → Answer B) → Answer B
then_done (done a) f = f a
then_done (failed e) f = failed e

abbrev pub required : {A : Type 0} → UpgradeError → Option A → Answer A
required e none = failed e
required e (some a) = done a

abbrev pub client_prefix : Bool → List ℕ
client_prefix pooled = if pooled then codes "PTT8-C:" else codes "PTT6-C:"

abbrev pub server_prefix : Bool → List ℕ
server_prefix pooled = if pooled then codes "PTT8-S:" else codes "PTT6-S:"

abbrev pub is_pooled : ℕ → Bool
is_pooled pool = ltb 1 pool

-- A pool size is one digit.
abbrev pub pool_bind : ℕ → List ℕ
pool_bind pool = if is_pooled pool then codes "pool-v2:" ++ (48 + pool) ∷ [] else []

unfoldable pub pool_size_error : ℕ → Bool
pool_size_error pool = ltb pool 1 || ltb 4 pool

-- send_handshake, up to the frame it queues.
unfoldable pub sized_message : List ℕ → Answer (List ℕ)
sized_message text = if ltb 1024 (length text) then failed oversized_handshake else done text

-- The three parts of 64 bytes behind the prefix.
pub record Parts : Type 0 where
  pub nonce : List ℕ
  pub public_hex : List ℕ
  pub proof : List ℕ

unfoldable pub parts : List ℕ → List ℕ → Option Parts
unfolding list_eq
parts prefix text =
    if not (length text == 199) || not (list_eq (take 7 text) prefix)
    then none
    else some (record {
      nonce = slice 7 64 text;
      public_hex = slice 71 64 text;
      proof = slice 135 64 text;
    })

-- The first key whose token is the one received, with its index.
unfoldable pub find_psk :
    (List ℕ → Option (List ℕ)) → List ℕ → ℕ → List (List ℕ) → Answer (ℕ × List ℕ)
unfolding list_eq
find_psk want auth i [] = failed authentication_failed
find_psk want auth i (psk ∷ psks) =
    let rest = find_psk want auth (suc i) psks in
    then_done (required crypto_failed (want psk))
      (λ w. if list_eq auth w then done (i, psk) else rest)

-- What the server has after the negotiation.
pub record Accepted : Type 0 where
  pub psk_index : ℕ
  pub client_nonce : List ℕ
  pub keys : SessionKeys
  pub reply : List ℕ

pub record KeyPair : Type 0 where
  pub private_key : List ℕ
  pub public_key : List ℕ

module _ (c : Crypto) (sha256 : List ℕ → List ℕ) (x25519 : List ℕ → List ℕ → Option (List ℕ)) where
  -- The first message of the client.
  unfoldable pub client_hello : List ℕ → List ℕ → List ℕ → ℕ → List ℕ → KeyPair → Answer (List ℕ)
  unfolding key32_hex websocket_client_auth_token_v5 sized_message pool_size_error
  client_hello host path psk pool nonce pair =
      if pool_size_error pool
      then failed invalid_pool_size
      else then_done (required crypto_failed (key32_hex pair.public_key)) (λ hex.
        then_done
          (required crypto_failed
            (websocket_client_auth_token_v5 c psk host path nonce (hex ++ pool_bind pool)))
          (λ auth. sized_message (client_prefix (is_pooled pool) ++ (nonce ++ (hex ++ auth)))))

  -- The server's side of a key that is found.
  abbrev pub accept_psk :
      List ℕ → List ℕ → ℕ → List ℕ → KeyPair → Parts → List ℕ → ℕ × List ℕ → Answer Accepted
  accept_psk host path pool nonce pair hello client_public (i, psk) =
      then_done (required crypto_failed (key32_hex pair.public_key)) (λ hex.
        then_done
          (required crypto_failed (
            websocket_server_proof_v5 c psk host path hello.nonce nonce hello.public_hex
              (hex ++ pool_bind pool)))
          (λ proof.
            then_done (required crypto_failed (x25519 pair.private_key client_public)) (λ shared.
              then_done
                (required crypto_failed (
                  derive_session_keys_v5 c sha256 psk shared nonce hello.nonce client_public
                    pair.public_key))
                (λ keys.
                  then_done
                    (sized_message (server_prefix (is_pooled pool) ++ (nonce ++ (hex ++ proof))))
                    (λ reply. done (record {
                      psk_index = i;
                      client_nonce = hello.nonce;
                      keys = keys;
                      reply = reply;
                    }))))))

  unfoldable pub server_answer :
      List ℕ → List ℕ → List (List ℕ) → ℕ → List ℕ → KeyPair → List ℕ → Answer Accepted
  unfolding parts key32_from_hex find_psk websocket_client_auth_token_v5 key32_hex
      websocket_server_proof_v5 derive_session_keys_v5 sized_message pool_size_error
  server_answer host path psks pool nonce pair text =
      if pool_size_error pool
      then failed invalid_pool_size
      else then_done (required invalid_negotiation (parts (client_prefix (is_pooled pool)) text))
          (λ hello.
            then_done (required invalid_public_key (key32_from_hex hello.public_hex))
              (λ client_public.
                then_done
                  (find_psk
                    (λ psk.
                      websocket_client_auth_token_v5 c psk host path hello.nonce
                        (hello.public_hex ++ pool_bind pool))
                    hello.proof 0 psks)
                  (accept_psk host path pool nonce pair hello client_public)))

  -- What the client makes of the reply.
  unfoldable pub client_keys :
      List ℕ → List ℕ → List ℕ → ℕ → List ℕ → KeyPair → List ℕ → Answer SessionKeys
  unfolding parts key32_from_hex key32_hex websocket_server_proof_v5 derive_session_keys_v5 list_eq
  client_keys host path psk pool nonce pair text =
      then_done (required crypto_failed (key32_hex pair.public_key)) (λ hex.
        then_done (required invalid_negotiation (parts (server_prefix (is_pooled pool)) text))
          (λ reply.
            then_done (required invalid_public_key (key32_from_hex reply.public_hex))
              (λ server_public.
                then_done
                  (required crypto_failed (
                    websocket_server_proof_v5 c psk host path nonce reply.nonce hex
                      (reply.public_hex ++ pool_bind pool)))
                  (λ want.
                    if not (list_eq reply.proof want)
                    then failed authentication_failed
                    else then_done (required crypto_failed (x25519 pair.private_key server_public))
                        (λ shared. required crypto_failed (
                          derive_session_keys_v5 c sha256 psk shared reply.nonce nonce
                            pair.public_key server_public))))))

  -- The proofs of the key confirmation and of a trial. HMAC of 32-byte keys does not fail.
  unfoldable pub confirmation_mac : SessionKeys → Bool → List ℕ
  confirmation_mac keys client = c.hmac keys.auth (
      if client
      then codes "PTT5 client key confirmation v1"
      else codes "PTT5 server key confirmation v1")

  unfoldable pub trial_message : SessionKeys → ℕ → List ℕ → List ℕ
  trial_message keys kind nonce =
      let out = kind ∷ nonce in out ++ c.hmac keys.auth (codes "PTT5 candidate trial v1" ++ out)
