-- ===== src/WebSocket/Frame/Direction.antt =====
-- The frames of one's own side, cdn/src/websocket.cpp: make_frame and the checks of websocket_read_messages.
use pacetun.Base.{
  ℕ, suc, ◌+◌, ◌≤◌, ◌<◌, ◌≡◌, refl, ap, ◌∙◌, List, ◌∷◌, ◌++◌, Bool, true, false, some,
  if◌then◌else◌, ltb, length, arith,
}
use pacetun.WebSocket.{WsError, masked_server_frame, unmasked_client_frame, ok, max_message_bytes}
use pacetun.WebSocket.Frame.{is_control, make_frame, bad_head, rejected, parse_frame}
use pacetun.WebSocket.Frame.RoundTrip.{
  wire, wire_before, make_frame-ok, seven, seven-lt, seven_control, mask_bit,
}

abbrev pub wrong_direction : Bool → WsError
wrong_direction client = if client then masked_server_frame else unmasked_client_frame

bad_head-some :
    (client : Bool) (opcode len7 : ℕ)
    → opcode < 16
    → len7 < 128
    → (is_control opcode ≡ true → len7 < 126)
    → bad_head client (128 + opcode) (mask_bit client + len7) ≡ some (wrong_direction client)
unfolding bad_head
bad_head-some true opcode len7 h k c = ground (arith, c)
bad_head-some false opcode len7 h k c = ground (arith, c)

parse_frame-own :
    (client auth : Bool) (opcode len7 : ℕ) (tail : List ℕ)
    → opcode < 16
    → len7 < 128
    → (is_control opcode ≡ true → len7 < 126)
    → parse_frame client auth ((128 + opcode) ∷ (mask_bit client + len7) ∷ tail)
      ≡ rejected (wrong_direction client)
unfolding parse_frame
parse_frame-own client auth opcode len7 tail h k c =
    let t : ltb (suc (suc (length tail))) 2 ≡ false = ground arith in
    rw (t, bad_head-some client opcode len7 h k c) refl

-- If the payload is at most 16 MiB, the opcode has 4 bits and a control frame has at most 125
-- bytes, then the parser of the role that made a frame refuses it: a client with "masked server
-- WebSocket frame rejected", a server with "unmasked client WebSocket frame rejected".
pub parse_frame-reflected :
    (client auth : Bool) (mk : List ℕ) (opcode : ℕ) (p rest : List ℕ)
    → opcode < 16
    → length p ≤ max_message_bytes
    → (is_control opcode ≡ true → length p < 126)
    → (make_frame client (some mk) opcode p ≡ ok (wire client mk opcode p))
      × (parse_frame client auth (wire client mk opcode p ++ rest)
          ≡ rejected (if client then masked_server_frame else unmasked_client_frame))
parse_frame-reflected client auth mk opcode p rest h k c = (
  make_frame-ok client mk opcode p h k c,
  ap (parse_frame client auth) (wire_before client mk opcode p rest)
      ∙ parse_frame-own client auth opcode (seven (length p)) _ h (seven-lt (length p))
          (λ e. seven_control (length p) (c e)),
)
