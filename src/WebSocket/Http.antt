-- ===== src/WebSocket/Http.antt =====
-- The HTTP upgrade of cdn/src/websocket.cpp: the request and the response, their headers and the checks of both
-- sides. SHA-1 and the base64 functions of OpenSSL are parameters.
use pacetun.Base.{
  ℕ, suc, ◌+◌, List, [], ◌∷◌, ◌++◌, Bool, true, false, not, ◌&&◌, ◌||◌, Option, none, some, leb,
  ◌==◌, if◌then◌else◌, length, is_empty, take, drop, get_or, trim, cut, codes,
}
use pacetun.Flow.{list_eq}

pub data HttpError : Type 0 where
  upgrade_rejected invalid_response invalid_path_or_method invalid_request invalid_host : HttpError

-- std::tolower of the "C" locale.
unfoldable pub lower : List ℕ → List ℕ
lower [] = []
lower (c ∷ s) = (if leb b'A' c && leb c b'Z' then c + 32 else c) ∷ lower s

abbrev pub starts_with : List ℕ → List ℕ → Bool
starts_with [] s = true
starts_with (p ∷ ps) [] = false
starts_with (p ∷ ps) (c ∷ s) = p == c && starts_with ps s

abbrev pub one_more : Option ℕ → Option ℕ
one_more none = none
one_more (some n) = some (suc n)

-- `s.find(needle)`
unfoldable pub find_text : List ℕ → List ℕ → Option ℕ
find_text needle [] = if is_empty needle then some 0 else none
find_text needle (c ∷ s) =
    let rest = find_text needle s in if starts_with needle (c ∷ s) then some 0 else one_more rest

abbrev pub crlf : List ℕ
crlf = 13 ∷ 10 ∷ []

abbrev pub drop_blanks : List ℕ → List ℕ
drop_blanks [] = []
drop_blanks (c ∷ s) = let rest = drop_blanks s in if c == 32 || c == 9 then rest else c ∷ s

abbrev pub up_to : Option ℕ → List ℕ → List ℕ
up_to none s = s
up_to (some n) s = take n s

-- The value behind the name of a header, from behind its colon.
abbrev pub header_value : Option ℕ → ℕ → List ℕ → List ℕ
header_value none size s = []
header_value (some p) size s =
    let value = drop_blanks (drop (p + size) s) in trim (up_to (find_text crlf value) value)

unfoldable pub hdr : List ℕ → List ℕ → List ℕ
unfolding lower find_text trim
hdr s name =
    let needle = crlf ++ (lower name ++ b':' ∷ []) in
    header_value (find_text needle (lower s)) (length needle) s

-- The parts between the commas.
abbrev pub part_before : Option (List ℕ × List ℕ) → List ℕ → List ℕ
part_before none s = s
part_before (some (part, after)) s = part

abbrev pub is_token : List ℕ → List ℕ → Bool
is_token wanted part = list_eq (lower (trim part)) wanted

-- The first part is what stands before the first comma; the others follow each comma.
abbrev pub token_behind : List ℕ → List ℕ → Bool
token_behind wanted [] = false
token_behind wanted (c ∷ s) =
    let rest = token_behind wanted s in
    if c == b',' then is_token wanted (part_before (cut b',' s) s) || rest else rest

unfoldable pub header_token : List ℕ → List ℕ → Bool
unfolding lower trim cut list_eq
header_token value token =
    let wanted = lower token in
    is_token wanted (part_before (cut b',' value) value) || token_behind wanted value

unfoldable pub host_matches : List ℕ → List ℕ → Bool
unfolding lower trim list_eq
host_matches got expected =
    let g = lower (trim got) in
    let e = lower (trim expected) in
    list_eq g e || list_eq g (e ++ codes ":443") || list_eq g (e ++ codes ":80")

-- `sha1`, EVP_EncodeBlock, and the number of bytes EVP_DecodeBlock gives, with `none` for a negative one.
pub record OpenSsl : Type 0 where
  pub sha1 : List ℕ → List ℕ
  pub encode_block : List ℕ → List ℕ
  pub decode_block : List ℕ → Option ℕ

unfoldable pub ws_accept : OpenSsl → List ℕ → List ℕ
ws_accept o key = o.encode_block (o.sha1 (key ++ codes "258EAFA5-E914-47DA-95CA-C5AB0DC85B11"))

-- `n - padding == 16`; the key has 24 bytes.
abbrev pub sixteen_bytes : Option ℕ → List ℕ → Bool
sixteen_bytes none key = false
sixteen_bytes (some n) key =
    n
    == 16 + (if get_or key 23 0 == b'=' then 1 else 0) + (if get_or key 22 0 == b'=' then 1 else 0)

unfoldable pub valid_ws_key : OpenSsl → List ℕ → Bool
valid_ws_key o key = length key == 24 && sixteen_bytes (o.decode_block key) key

abbrev pub line : List ℕ → List ℕ
line s = s ++ crlf

abbrev pub user_agent : List ℕ → List ℕ
user_agent profile =
    if list_eq profile (codes "chrome120")
    then codes
        "Mozilla/5.0 (X11; Linux x86_64) AppleWebKit/537.36 (KHTML, like Gecko) Chrome/120.0.0.0 Safari/537.36"
    else codes "Mozilla/5.0 (X11; Linux x86_64; rv:120.0) Gecko/20100101 Firefox/120.0"

unfoldable pub browser_headers : List ℕ → List ℕ → List ℕ
unfolding list_eq
browser_headers profile host =
    if list_eq profile (codes "none")
    then []
    else line (codes "User-Agent: " ++ user_agent profile)
      ++ line (codes "Origin: https://" ++ host)
      ++ line (codes "Sec-Fetch-Dest: websocket")
      ++ line (codes "Sec-Fetch-Mode: websocket")
      ++ line (codes "Sec-Fetch-Site: same-origin")

unfoldable pub client_request : List ℕ → List ℕ → List ℕ → List ℕ → List ℕ
unfolding browser_headers
client_request host path key profile =
    line (codes "GET " ++ path ++ codes " HTTP/1.1")
    ++ line (codes "Host: " ++ host)
    ++ line (codes "Upgrade: websocket")
    ++ line (codes "Connection: Upgrade")
    ++ line (codes "Sec-WebSocket-Key: " ++ key)
    ++ line (codes "Sec-WebSocket-Version: 13")
    ++ browser_headers profile host
    ++ crlf

abbrev pub is_upgrade : List ℕ → Bool
is_upgrade r =
    list_eq (lower (hdr r (codes "Upgrade"))) (codes "websocket")
    && header_token (hdr r (codes "Connection")) (codes "upgrade")

abbrev pub first_line_is : Option ℕ → List ℕ → List ℕ → Bool
first_line_is none r wanted = false
first_line_is (some e) r wanted = list_eq (take e r) wanted

-- The checks of websocket_server_upgrade, in their order.
unfoldable pub request_error : OpenSsl → List ℕ → List ℕ → List ℕ → Option HttpError
unfolding find_text hdr lower header_token valid_ws_key host_matches list_eq
request_error o host path r =
    let key = hdr r (codes "Sec-WebSocket-Key") in
    if not (first_line_is (find_text crlf r) r (codes "GET " ++ path ++ codes " HTTP/1.1"))
    then some invalid_path_or_method
    else if not (is_upgrade r)
        || not (list_eq (hdr r (codes "Sec-WebSocket-Version")) (codes "13"))
        || not (valid_ws_key o key)
        || not (is_empty (hdr r (codes "Sec-WebSocket-Protocol")))
    then some invalid_request
    else if not (host_matches (hdr r (codes "Host")) host)
    then some invalid_host
    else none

unfoldable pub server_response : OpenSsl → List ℕ → List ℕ
unfolding ws_accept
server_response o key =
    line (codes "HTTP/1.1 101 Switching Protocols")
    ++ line (codes "Upgrade: websocket")
    ++ line (codes "Connection: Upgrade")
    ++ line (codes "Sec-WebSocket-Accept: " ++ ws_accept o key)
    ++ crlf

-- The checks of websocket_client_upgrade.
unfoldable pub response_error : OpenSsl → List ℕ → List ℕ → Option HttpError
unfolding hdr lower header_token ws_accept list_eq
response_error o key r =
    if not (starts_with (codes "HTTP/1.1 101 ") r)
      && not (starts_with (codes "HTTP/1.1 101" ++ crlf) r)
    then some upgrade_rejected
    else if not (is_upgrade r)
        || not (list_eq (hdr r (codes "Sec-WebSocket-Accept")) (ws_accept o key))
        || not (is_empty (hdr r (codes "Sec-WebSocket-Protocol")))
    then some invalid_response
    else none
