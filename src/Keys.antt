-- ===== src/Keys.antt =====
-- The hexadecimal texts, the handshake tokens and the session keys of cdn/src/record.cpp. A text is the
-- list of its bytes; SHA-256 is a parameter, HMAC-SHA256 that of the records.
pub mod Hex
pub mod Lines
use mathlib.Core.Option
use pacetun.Base.{
  ℕ, suc, ◌+◌, ◌-◌, ◌*◌, ◌/◌, ◌%◌, List, [], ◌∷◌, ◌++◌, Bool, true, false, not, ◌&&◌, ◌||◌, Option,
  none, some, ltb, leb, ◌==◌, if◌then◌else◌, length, codes,
}
use pacetun.Record.{Crypto}

-- Two optional values together: the first that is missing ends the computation.
abbrev pub then_two : Option ℕ → Option ℕ → (ℕ → ℕ → Option (List ℕ)) → Option (List ℕ)
then_two (some a) (some b) f = f a b
then_two _ _ f = none

abbrev pub cons_some : ℕ → Option (List ℕ) → Option (List ℕ)
cons_some b none = none
cons_some b (some bs) = some (b ∷ bs)

-- `none` is -1.
unfoldable pub hex_nibble : ℕ → Option ℕ
hex_nibble c =
    if leb b'0' c && leb c b'9'
    then some (c - b'0')
    else if leb b'a' c && leb c b'f'
    then some (c - b'a' + 10)
    else if leb b'A' c && leb c b'F'
    then some (c - b'A' + 10)
    else none

-- `none` is the exception "invalid hex".
unfoldable pub hex_decode : List ℕ → Option (List ℕ)
unfolding hex_nibble
hex_decode [] = some []
hex_decode (x ∷ []) = none
hex_decode (x ∷ y ∷ zs) =
    let rest = hex_decode zs in
    then_two (hex_nibble x) (hex_nibble y) (λ hi lo. cons_some (hi * 16 + lo) rest)

-- One digit of std::hex.
abbrev pub hex_digit : ℕ → ℕ
hex_digit n = if ltb n 10 then b'0' + n else b'a' + (n - 10)

unfoldable pub hex_encode : List ℕ → List ℕ
hex_encode [] = []
hex_encode (b ∷ bs) = hex_digit (b / 16) ∷ hex_digit (b % 16) ∷ hex_encode bs

-- `none` is an exception, here and below.
unfoldable pub key32_hex : List ℕ → Option (List ℕ)
unfolding hex_encode
key32_hex key = if not (length key == 32) then none else some (hex_encode key)

abbrev pub of_size : ℕ → Option (List ℕ) → Option (List ℕ)
of_size n none = none
of_size n (some v) = if not (length v == n) then none else some v

unfoldable pub key32_from_hex : List ℕ → Option (List ℕ)
unfolding hex_decode
key32_from_hex hex = of_size 32 (hex_decode hex)

pub record SessionKeys : Type 0 where
  pub client_tx : List ℕ
  pub server_tx : List ℕ
  pub auth : List ℕ

module _ (c : Crypto) where
  -- The size check of mac never fails here: its keys are of 32 or 64 bytes.
  unfoldable pub hkdf_expand_one : List ℕ → List ℕ → List ℕ
  hkdf_expand_one prk label = c.hmac prk (label ++ 1 ∷ [])

  abbrev pub expand_all : List ℕ → List ℕ → List ℕ → List ℕ → SessionKeys
  expand_all prk client server auth = record {
    client_tx = hkdf_expand_one prk client;
    server_tx = hkdf_expand_one prk server;
    auth = hkdf_expand_one prk auth;
  }

  -- Two nonces of 32 bytes.
  abbrev pub with_nonces :
      Option (List ℕ) → Option (List ℕ) → (List ℕ → List ℕ → SessionKeys) → Option SessionKeys
  with_nonces (some s) (some c) f =
      if not (length s == 32) || not (length c == 32) then none else some (f s c)
  with_nonces _ _ f = none

  unfoldable pub derive_session_keys : List ℕ → List ℕ → List ℕ → Option SessionKeys
  unfolding hkdf_expand_one hex_decode
  derive_session_keys psk snonce cnonce =
      with_nonces (hex_decode snonce) (hex_decode cnonce) (λ s n.
        expand_all (c.hmac (s ++ n) psk) (codes "pacetun-v3 client-to-server")
          (codes "pacetun-v3 server-to-client") (codes "pacetun-v3 handshake-auth"))

  unfoldable pub derive_session_keys_v4 : List ℕ → List ℕ → List ℕ → Option SessionKeys
  unfolding hkdf_expand_one hex_decode
  derive_session_keys_v4 psk snonce cnonce =
      with_nonces (hex_decode snonce) (hex_decode cnonce) (λ s n.
        expand_all (c.hmac (s ++ n) psk) (codes "pacetun-v4 client-to-server")
          (codes "pacetun-v4 server-to-client") (codes "pacetun-v4 handshake-auth"))

-- The fields of a message, one on each line.
abbrev pub join : List ℕ → List (List ℕ) → List ℕ
join x [] = x
join x (y ∷ ys) = x ++ (10 ∷ join y ys)

unfoldable pub handshake_message : List ℕ → List ℕ → List ℕ → List ℕ → List ℕ
handshake_message authority path snonce cnonce =
    join (codes "pacetun-tls-v3") (authority ∷ path ∷ snonce ∷ cnonce ∷ [])

unfoldable pub auth_message : List ℕ → List ℕ → List ℕ → List ℕ
auth_message authority path cnonce =
    join (codes "pacetun-websocket-v4") (authority ∷ path ∷ cnonce ∷ [])

unfoldable pub client_message : List ℕ → List ℕ → List ℕ → List ℕ → List ℕ
client_message authority path cnonce cpub =
    join (codes "pacetun-websocket-v5-client") (authority ∷ path ∷ cnonce ∷ cpub ∷ [])

unfoldable pub server_message : List ℕ → List ℕ → List ℕ → List ℕ → List ℕ → List ℕ → List ℕ
server_message authority path cnonce snonce cpub spub =
    join (codes "pacetun-websocket-v5-server")
      (authority ∷ path ∷ cnonce ∷ snonce ∷ cpub ∷ spub ∷ [])

-- mac, with its check of the size; HMAC itself does not fail.
unfoldable pub mac : Crypto → List ℕ → List ℕ → Option (List ℕ)
mac c key text = if ltb 2147483647 (length key) then none else some (c.hmac key text)

abbrev pub token : Crypto → List ℕ → List ℕ → Option (List ℕ)
token c key text = Option.map hex_encode (mac c key text)

-- The tokens: the keyed hash of the message, as a text.
unfoldable pub handshake_token :
    Crypto → List ℕ → List ℕ → List ℕ → List ℕ → List ℕ → Option (List ℕ)
unfolding handshake_message mac hex_encode
handshake_token c key authority path snonce cnonce =
    token c key (handshake_message authority path snonce cnonce)

unfoldable pub websocket_auth_token : Crypto → List ℕ → List ℕ → List ℕ → List ℕ → Option (List ℕ)
unfolding auth_message mac hex_encode
websocket_auth_token c psk authority path cnonce = token c psk (auth_message authority path cnonce)

unfoldable pub websocket_client_auth_token_v5 :
    Crypto → List ℕ → List ℕ → List ℕ → List ℕ → List ℕ → Option (List ℕ)
unfolding client_message mac hex_encode
websocket_client_auth_token_v5 c psk authority path cnonce cpub =
    token c psk (client_message authority path cnonce cpub)

unfoldable pub websocket_server_proof_v5 :
    Crypto → List ℕ → List ℕ → List ℕ → List ℕ → List ℕ → List ℕ → List ℕ → Option (List ℕ)
unfolding server_message mac hex_encode
websocket_server_proof_v5 c psk authority path cnonce snonce cpub spub =
    token c psk (server_message authority path cnonce snonce cpub spub)

-- The text that the salt of PTT5 is the hash of.
unfoldable pub transcript : List ℕ → List ℕ → List ℕ → List ℕ → List ℕ
transcript s c cpub spub = codes "PaceTun-PTT5" ++ (s ++ (c ++ (cpub ++ spub)))

unfoldable pub derive_session_keys_v5 :
    Crypto
    → (List ℕ → List ℕ)
    → List ℕ
    → List ℕ
    → List ℕ
    → List ℕ
    → List ℕ
    → List ℕ
    → Option SessionKeys
unfolding transcript hkdf_expand_one hex_decode
derive_session_keys_v5 c sha256 psk shared snonce cnonce cpub spub =
    if not (length shared == 32) || not (length cpub == 32) || not (length spub == 32)
    then none
    else with_nonces c (hex_decode snonce) (hex_decode cnonce) (λ s n.
      expand_all c (c.hmac (sha256 (transcript s n cpub spub)) (shared ++ psk))
        (codes "pacetun-v5 client-to-server") (codes "pacetun-v5 server-to-client")
        (codes "pacetun-v5 transcript-auth"))
