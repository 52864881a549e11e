-- ===== src/Tests/Handshake.antt =====
-- A negotiation with a stand-in for the cryptography: the keyed hash repeats the first byte of its key.
use pacetun.Base.{
  ℕ, zero, suc, ◌≡◌, refl, List, [], ◌∷◌, ◌++◌, false, Option, none, some, length, replicate,
  get_or, get_elem?, All, IsByte, arith, ap, codes, trim, cut, map, ◌+◌, ◌%◌,
}
use pacetun.Flow.{list_eq}
use pacetun.Record.{Crypto}
use pacetun.Keys.{
  hex_encode, hex_decode, key32_hex, key32_from_hex, mac, client_message, server_message,
  transcript, hkdf_expand_one, websocket_client_auth_token_v5, websocket_server_proof_v5,
  derive_session_keys_v5,
}
use pacetun.WebSocket.Http.{
  OpenSsl, lower, find_text, hdr, header_token, host_matches, ws_accept, valid_ws_key,
  browser_headers, client_request, request_error, server_response, response_error,
}
use pacetun.WebSocket.Upgrade.{
  Answer, done, failed, Parts, parts, find_psk, Accepted, KeyPair, pool_size_error, sized_message,
  is_pooled, client_prefix, pool_bind, client_hello, server_answer, client_keys,
}
use pacetun.WebSocket.Upgrade.Agree.{upgrade_agrees}
use pacetun.WebSocket.Upgrade.Authentic.{server_answer-authentic}

abbrev toy : Crypto
toy = record {
  hmac = λ key text. replicate 32 (get_or key 0 0);
  seal = λ key nonce head plain. none;
  unseal = λ key nonce head text tag. none;
}

abbrev digest : List ℕ → List ℕ
digest text = replicate 32 5

abbrev exchange : List ℕ → List ℕ → Option (List ℕ)
exchange mine other = some (replicate 32 7)

length-replicate : (n b : ℕ) → length (replicate {A = ℕ} n b) ≡ n
length-replicate zero b = refl
length-replicate (suc n) b = ap suc (length-replicate n b)

replicate-IsByte : (n : ℕ) → All IsByte (replicate n 3)
replicate-IsByte zero = tt
replicate-IsByte (suc n) = (omega arith, replicate-IsByte n)

abbrev bytes32 : List ℕ
bytes32 = replicate 32 3

abbrev pair : KeyPair
pair = record { private_key = replicate 32 9; public_key = bytes32 }

abbrev first_psk : List ℕ
first_psk = 1 ∷ []

abbrev second_psk : List ℕ
second_psk = 2 ∷ []

abbrev host : List ℕ
host = codes "cdn.example"

abbrev path : List ℕ
path = codes "/assets/api/v6"

abbrev token_of : List ℕ → Option (List ℕ)
token_of psk =
    websocket_client_auth_token_v5 toy psk host path (hex_encode bytes32)
      (hex_encode bytes32 ++ pool_bind 2)

first_token : token_of first_psk ≡ some (hex_encode (replicate 32 1))
unfolding websocket_client_auth_token_v5 mac
first_token = refl

tokens_differ : list_eq (hex_encode (replicate 32 2)) (hex_encode (replicate 32 1)) ≡ false
unfolding list_eq hex_encode
tokens_differ = refl

upgrade_agrees_example :
    (first : List ℕ) × ((a : Accepted) × ((client_hello toy digest exchange host path second_psk 2
            (hex_encode bytes32)
            pair
          ≡ done first)
        × ((server_answer toy digest exchange host path
                (first_psk ∷ second_psk ∷ [])
                2
                (hex_encode bytes32)
                pair
                first
              ≡ done a)
            × ((client_keys toy digest exchange host path second_psk 2
                    (hex_encode bytes32)
                    pair
                    a.reply
                  ≡ done a.keys)
                × ((a.psk_index ≡ 1) × (a.client_nonce ≡ hex_encode bytes32))))))
upgrade_agrees_example =
    upgrade_agrees toy digest exchange host path second_psk bytes32 bytes32 (replicate 32 7) 2 pair
      pair (first_psk ∷ []) [] (λ key text. length-replicate 32 (get_or key 0 0)) (omega arith)
      (omega arith) (omega arith) (refl, replicate-IsByte 32) (refl, replicate-IsByte 32)
      (refl, replicate-IsByte 32) (refl, replicate-IsByte 32) refl refl refl
      ((hex_encode (replicate 32 1), (first_token, tokens_differ)), tt)

abbrev hello : List ℕ
hello =
    codes "PTT6-C:" ++ (hex_encode bytes32 ++ (hex_encode bytes32 ++ hex_encode (replicate 32 1)))

abbrev answer : Answer Accepted
answer =
    server_answer toy digest exchange host path (first_psk ∷ []) 1 (hex_encode bytes32) pair hello

abbrev none_accepted : Accepted
none_accepted = record {
  psk_index = 9;
  client_nonce = [];
  keys = record { client_tx = []; server_tx = []; auth = [] };
  reply = [];
}

abbrev or_none : Answer Accepted → Accepted
or_none (done a) = a
or_none (failed e) = none_accepted

answered : answer ≡ done (or_none answer)
unfolding server_answer parts key32_from_hex hex_decode hex_encode find_psk
    websocket_client_auth_token_v5 mac key32_hex websocket_server_proof_v5 derive_session_keys_v5
    transcript hkdf_expand_one list_eq sized_message pool_size_error client_message server_message
answered = refl

server_answer-authentic_example :
    (read : Parts) × ((psk : List ℕ) × ((parts (client_prefix (is_pooled 1)) hello ≡ some read)
        × ((get_elem? (first_psk ∷ []) (or_none answer).psk_index ≡ some psk)
            × ((websocket_client_auth_token_v5 toy psk host path read.nonce
                    (read.public_hex ++ pool_bind 1)
                  ≡ some read.proof)
                × ((or_none answer).client_nonce ≡ read.nonce)))))
server_answer-authentic_example =
    server_answer-authentic toy digest exchange host path (first_psk ∷ []) 1 (hex_encode bytes32)
      pair hello (or_none answer) answered

-- A stand-in for OpenSSL: the hash of a text is its length.
abbrev openssl : OpenSsl
openssl = record {
  sha1 = λ text. length text ∷ [];
  encode_block = λ bytes. map (λ b. 65 + b % 26) bytes;
  decode_block = λ text. some 18;
}

abbrev key : List ℕ
key = codes "AAAAAAAAAAAAAAAAAAAAAA=="

request_is_accepted :
    request_error openssl host path (client_request host path key (codes "firefox120")) ≡ none
unfolding request_error client_request find_text hdr lower header_token valid_ws_key host_matches
    list_eq browser_headers trim cut
request_is_accepted = refl

response_is_accepted : response_error openssl key (server_response openssl key) ≡ none
unfolding response_error server_response find_text hdr lower header_token ws_accept list_eq trim cut
response_is_accepted = refl
