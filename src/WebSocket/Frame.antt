-- ===== src/WebSocket/Frame.antt =====
-- One frame: make_frame of cdn/src/websocket.cpp, and the part of websocket_read_messages that finds a
-- frame in the bytes received.
pub mod RoundTrip
pub mod Direction
use pacetun.Base.{
  ℕ, zero, suc, ◌+◌, ◌-◌, ◌*◌, ◌/◌, ◌%◌, List, [], ◌∷◌, ◌++◌, Bool, true, false, not, ◌&&◌, ◌||◌,
  Option, none, some, ltb, leb, ◌==◌, if◌then◌else◌, length, drop, slice, get_or, be_bytes,
  be_value, xor_bits,
}
use pacetun.Flow.{at}
use pacetun.WebSocket.{
  WsError, control_too_large, payload_too_large, rng_failed, rsv_bits, fragmented_control,
  invalid_control_length, masked_server_frame, unmasked_client_frame, invalid_length,
  frame_too_large, Result, ok, err, max_message_bytes,
}

-- `(opcode&0x8)!=0`
abbrev pub is_control : ℕ → Bool
is_control opcode = not (opcode / 8 % 2 == 0)

-- `f[start+i]^=mk[i%4]` from `i` on.
unfoldable pub apply_mask : List ℕ → ℕ → List ℕ → List ℕ
unfolding xor_bits
apply_mask mk i [] = []
apply_mask mk i (b ∷ bs) = xor_bits 8 b (at mk (i % 4)) ∷ apply_mask mk (i + 1) bs

-- The second byte, with the bit `mbit`, and the longer length behind it.
unfoldable pub length_bytes : ℕ → ℕ → List ℕ
length_bytes mbit n =
    if ltb n 126
    then (mbit + n) ∷ []
    else if leb n 65535
    then (mbit + 126) ∷ be_bytes 2 n
    else (mbit + 127) ∷ be_bytes 8 n

-- The mask that RAND_bytes gives is `none` if it fails.
abbrev pub masked_tail : List ℕ → List ℕ → Option (List ℕ) → Result (List ℕ)
masked_tail head p none = err rng_failed
masked_tail head p (some mk) = ok (head ++ (mk ++ apply_mask mk 0 p))

unfoldable pub make_frame : Bool → Option (List ℕ) → ℕ → List ℕ → Result (List ℕ)
unfolding apply_mask length_bytes
make_frame client mask opcode p =
    if is_control opcode && ltb 125 (length p)
    then err control_too_large
    else if not (is_control opcode) && ltb max_message_bytes (length p)
    then err payload_too_large
    else if client
    then masked_tail ((128 + opcode % 128) ∷ length_bytes 128 (length p)) p mask
    else ok ((128 + opcode % 128) ∷ (length_bytes 0 (length p) ++ p))

pub record Frame : Type 0 where
  pub fin : Bool
  pub opcode : ℕ
  pub payload : List ℕ
  -- The bytes of the whole frame.
  pub size : ℕ

pub data Parsed : Type 0 where
  incomplete : Parsed
  rejected : WsError → Parsed
  found : Frame → Parsed

-- What the first two bytes say.
pub record Head : Type 0 where
  pub fin : Bool
  pub opcode : ℕ
  pub masked : Bool
  pub len7 : ℕ

abbrev pub head_of : ℕ → ℕ → Head
head_of b0 b1 = record {
  fin = leb 128 (b0 % 256);
  opcode = b0 % 16;
  masked = leb 128 (b1 % 256);
  len7 = b1 % 128;
}

-- The checks of the first two bytes.
unfoldable pub bad_head : Bool → ℕ → ℕ → Option WsError
bad_head client b0 b1 =
    let h = head_of b0 b1 in
    if not (b0 / 16 % 8 == 0)
    then some rsv_bits
    else if is_control h.opcode && not h.fin
    then some fragmented_control
    else if is_control h.opcode && leb 126 h.len7
    then some invalid_control_length
    else if client && h.masked
    then some masked_server_frame
    else if not client && not h.masked
    then some unmasked_client_frame
    else none

-- The length, and the position behind it.
pub data Length : Type 0 where
  short : Length
  bad : Length
  long : ℕ → ℕ → Length

unfoldable pub length_field : ℕ → List ℕ → Length
length_field len7 b =
    if len7 == 126
    then (if ltb (length b) 4 then short else long (at b 2 * 256 + at b 3) 4)
    else if len7 == 127
    then (if ltb (length b) 10
        then short
        else if leb 128 (at b 2)
        then bad
        else long (be_value 0 (slice 2 8 b)) 10)
    else long len7 2

-- The mask, the limit and the payload, from position `pos` on. `n` is at most the limit where the check
-- against the range of size_t stands, so that check is left out.
abbrev pub body : Bool → Head → ℕ → ℕ → List ℕ → Parsed
body authenticated h n pos b =
    let start = if h.masked then pos + 4 else pos in
    if ltb (length b) start
    then incomplete
    else if ltb (if authenticated then max_message_bytes else 1024) n
    then rejected frame_too_large
    else if ltb (length b) (start + n)
    then incomplete
    else (let raw = slice start n b in
        found (record {
          fin = h.fin;
          opcode = h.opcode;
          payload = if h.masked then apply_mask (slice pos 4 b) 0 raw else raw;
          size = start + n;
        }))

abbrev pub sized : Bool → Head → List ℕ → Length → Parsed
sized authenticated h b short = incomplete
sized authenticated h b bad = rejected invalid_length
sized authenticated h b (long n pos) = body authenticated h n pos b

abbrev pub checked : Bool → Head → List ℕ → Option WsError → Parsed
checked authenticated h b (some e) = rejected e
checked authenticated h b none = sized authenticated h b (length_field h.len7 b)

-- The frame at the front of `b`, the bytes of `rx` from `off` on.
unfoldable pub parse_frame : Bool → Bool → List ℕ → Parsed
unfolding bad_head length_field apply_mask
parse_frame client authenticated b =
    if ltb (length b) 2
    then incomplete
    else checked authenticated (head_of (at b 0) (at b 1)) b (bad_head client (at b 0) (at b 1))
