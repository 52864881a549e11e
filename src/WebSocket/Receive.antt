-- ===== src/WebSocket/Receive.antt =====
-- websocket_read_messages of cdn/src/websocket.cpp: the reads, the frames of the buffer, and the end; with
-- valid_close_status, close_category and websocket_close_summary.
pub mod Found
pub mod Handlers
pub mod Sound
use pacetun.Base.{
  ℕ, zero, suc, ◌+◌, ◌-◌, ◌*◌, List, [], ◌∷◌, ◌++◌, Bool, true, false, not, ◌&&◌, ◌||◌, Option,
  none, some, ltb, leb, ◌==◌, if◌then◌else◌, length, is_empty, drop, take, add64,
}
use pacetun.Flow.{at}
use pacetun.WebSocket.{
  WsError, new_data_in_fragment, unexpected_continuation, fragment_too_large, unsupported_fragment,
  invalid_close_payload, invalid_close_status, text_unsupported, unsupported_opcode,
  peer_close_received, peer_closed, rx_limit, read_failed, truncated_frame, truncated_message,
  Session, max_message_bytes, max_rx_buffered_bytes, max_remembered_pongs,
}
use pacetun.WebSocket.Frame.{Frame, Parsed, incomplete, rejected, found, parse_frame}
use pacetun.WebSocket.Send.{queue_frame, send_pong}

unfoldable pub valid_close_status : ℕ → Bool
valid_close_status code =
    leb 1000 code && leb code 1014 && not (code == 1004) && not (code == 1005) && not (code == 1006)
    || leb 3000 code && leb code 4999

pub data Category : Type 0 where
  normal going_away protocol_error unsupported_data invalid_payload policy_violation
        message_too_big :
      Category
  extension_required server_error service_restart try_again_later bad_gateway registered
        private_use :
      Category

unfoldable pub close_category : ℕ → Category
close_category code =
    if code == 1000
    then normal
    else if code == 1001
    then going_away
    else if code == 1002
    then protocol_error
    else if code == 1003
    then unsupported_data
    else if code == 1007
    then invalid_payload
    else if code == 1008
    then policy_violation
    else if code == 1009
    then message_too_big
    else if code == 1010
    then extension_required
    else if code == 1011
    then server_error
    else if code == 1012
    then service_restart
    else if code == 1013
    then try_again_later
    else if code == 1014
    then bad_gateway
    else if leb 3000 code && leb code 3999
    then registered
    else private_use

-- What the text of the summary says.
pub data Summary : Type 0 where
  not_received no_code : Summary
  coded : ℕ → Category → ℕ → Summary

unfoldable pub close_summary : Session → Summary
unfolding close_category
close_summary w =
    if not w.close_received
    then not_received
    else if not w.close_has_code
    then no_code
    else coded w.close_code (close_category w.close_code) w.close_reason_bytes

-- What SSL_read_ex or recv answers. An SSL failure leaves errno as it was: `ssl_failed true` is one
-- that finds EAGAIN there.
pub data Read : Type 0 where
  ssl_read sock_read : List ℕ → Read
  ssl_failed : Bool → Read
  want_read want_write zero_return would_block sock_failed : Read

-- What io_read answers: the bytes, none of them at the end; a negative number with EAGAIN in errno;
-- or any other failure.
pub data Got : Type 0 where
  got : List ℕ → Got
  again failed : Got

unfoldable pub io_read : Session → Read → Session × Got
io_read w (ssl_read b) = (record w { rx_wait = 0 }, got (take 65536 b))
io_read w want_read = (record w { rx_wait = 1 }, again)
io_read w want_write = (record w { rx_wait = 2 }, again)
io_read w zero_return = (w, got [])
io_read w (ssl_failed true) = (w, again)
io_read w (ssl_failed false) = (w, failed)
io_read w (sock_read b) = (record w { rx_wait = 0 }, got (take 65536 b))
io_read w would_block = (record w { rx_wait = 1 }, again)
io_read w sock_failed = (w, failed)

abbrev pub on_read :
    (Session → ℕ → Session × Option WsError) → Session → ℕ → Got → Session × Option WsError
on_read go w received (got []) = (record w { peer_eof = true }, none)
on_read go w received (got (x ∷ xs)) =
    let n = length (x ∷ xs) in
    let more = go (record w { rx = w.rx ++ x ∷ xs }) (received + n) in
    if ltb (max_rx_buffered_bytes - n) (length w.rx) then (w, some rx_limit) else more
on_read go w received again = (w, none)
on_read go w received failed = (w, some read_failed)

-- The loop of reads. A list that ends stands for a socket that would block.
unfoldable pub receive : List Read → Session → ℕ → Session × Option WsError
unfolding io_read
receive [] w received =
    if ltb received (256 * 1024) then (record w { rx_wait = 1 }, none) else (w, none)
receive (r ∷ rs) w received =
    let (w', a) = io_read w r in
    let next = on_read (λ v n. receive rs v n) w' received a in
    if ltb received (256 * 1024) then next else (w, none)

-- The mask that RAND_bytes gives and the time of mono_ms(), where the answer to frame `rx_frames` is queued.
pub record Env : Type 0 where
  pub mask : ℕ → Option (List ℕ)
  pub now : ℕ → ℕ

-- After one frame: the next one, the end of the loop, or an exception.
pub data Next : Type 0 where
  go_on done : Session → List (List ℕ) → Next
  throw : Session → WsError → Next

unfoldable pub on_binary : Session → List (List ℕ) → Frame → Next
on_binary w out f =
    if not (w.fragment_opcode == 0)
    then throw w new_data_in_fragment
    else if f.fin
    then go_on
        (record w { rx_binary_payload_bytes = add64 w.rx_binary_payload_bytes (length f.payload) })
        (out ++ f.payload ∷ [])
    else go_on (record w { fragment_opcode = 2; fragment_payload = f.payload }) out

unfoldable pub on_continuation : Session → List (List ℕ) → Frame → Next
on_continuation w out f =
    let whole = w.fragment_payload ++ f.payload in
    let w' = record w { fragment_payload = whole } in
    if w.fragment_opcode == 0
    then throw w unexpected_continuation
    else if ltb (max_message_bytes - length f.payload) (length w.fragment_payload)
    then throw w fragment_too_large
    else if not f.fin
    then go_on w' out
    else if not (w.fragment_opcode == 2)
    then throw w' unsupported_fragment
    else go_on
        (record w {
          rx_binary_payload_bytes = add64 w.rx_binary_payload_bytes (length whole);
          fragment_payload = [];
          fragment_opcode = 0;
        })
        (out ++ whole ∷ [])

abbrev pub sent_or_thrown : List (List ℕ) → Session × Option WsError → Next
sent_or_thrown out (w, none) = go_on w out
sent_or_thrown out (w, some e) = throw w e

unfoldable pub on_ping : Env → Session → List (List ℕ) → Frame → Next
unfolding send_pong
on_ping env w out f =
    let w' = record w { rx_ping_frames = add64 w.rx_ping_frames 1 } in
    sent_or_thrown out (send_pong w' (env.mask w.rx_frames) (env.now w.rx_frames) f.payload)

unfoldable pub on_pong : Session → List (List ℕ) → Frame → Next
on_pong w out f =
    let kept =
      if leb max_remembered_pongs (length w.pong_payloads)
      then drop 1 w.pong_payloads
      else w.pong_payloads in
    go_on
      (record w {
        rx_pong_frames = add64 w.rx_pong_frames 1;
        pong_payloads = kept ++ f.payload ∷ [];
      })
      out

-- The close frame is answered if it can be.
abbrev pub closing : Env → Session → List (List ℕ) → List ℕ → Next
closing env w out p =
    let w' = record (queue_frame w (env.mask w.rx_frames) (env.now w.rx_frames) 8 p).0 {
      close_received = true;
    } in
    if is_empty out then throw w' peer_close_received else done w' out

unfoldable pub on_close : Env → Session → List (List ℕ) → Frame → Next
unfolding queue_frame valid_close_status
on_close env w out f =
    let p = f.payload in
    let code = at p 0 * 256 + at p 1 in
    let w' = record w {
      close_code = code;
      close_has_code = true;
      close_reason_bytes = length p - 2;
    } in
    if length p == 1
    then throw w invalid_close_payload
    else if leb 2 (length p)
    then (if not (valid_close_status code)
        then throw w invalid_close_status
        else closing env w' out p)
    else closing env w out p

unfoldable pub on_frame : Env → Session → List (List ℕ) → Frame → Next
unfolding on_binary on_continuation on_ping on_pong on_close
on_frame env w out f =
    if f.opcode == 2
    then on_binary w out f
    else if f.opcode == 0
    then on_continuation w out f
    else if f.opcode == 9
    then on_ping env w out f
    else if f.opcode == 10
    then on_pong w out f
    else if f.opcode == 8
    then on_close env w out f
    else if f.opcode == 1
    then throw w text_unsupported
    else throw w unsupported_opcode

-- How the loop over the frames ends: with the messages and the bytes left, with an exception, or not within
-- the fuel.
pub data Loop : Type 0 where
  parsed : Session → List (List ℕ) → List ℕ → Loop
  thrown : Session → WsError → Loop
  stuck : Loop

abbrev pub on_next : (Session → List (List ℕ) → List ℕ → Loop) → List ℕ → Next → Loop
on_next go b (go_on w out) = go w out b
on_next go b (done w out) = parsed w out b
on_next go b (throw w e) = thrown w e

abbrev pub on_parsed :
    Env
    → (Session → List (List ℕ) → List ℕ → Loop)
    → Session
    → List (List ℕ)
    → List ℕ
    → Parsed
    → Loop
on_parsed env go w out b incomplete = parsed w out b
on_parsed env go w out b (rejected e) = thrown w e
on_parsed env go w out b (found f) =
    on_next go (drop f.size b) (on_frame env (record w { rx_frames = add64 w.rx_frames 1 }) out f)

-- The loop over the frames; `b` is `rx` from `off` on.
unfoldable pub parse_loop : ℕ → Env → Session → List (List ℕ) → List ℕ → Loop
unfolding on_frame parse_frame
parse_loop zero env w out b = stuck
parse_loop (suc k) env w out b =
    on_parsed env (λ v o c. parse_loop k env v o c) w out b (parse_frame w.client w.authenticated b)

-- What websocket_read_messages does: it returns, throws, or has too little fuel.
pub data Outcome : Type 0 where
  returned : Session → List (List ℕ) → Outcome
  raised : Session → WsError → Outcome
  unfinished : Outcome

unfoldable pub finish : Loop → Outcome
finish stuck = unfinished
finish (thrown w e) = raised w e
finish (parsed w out rest) =
    let w' = record w { rx = rest } in
    if w.peer_eof && not (is_empty rest)
    then raised w' truncated_frame
    else if w.peer_eof && not (w.fragment_opcode == 0)
    then raised w' truncated_message
    else if w.peer_eof && is_empty out
    then raised w' peer_closed
    else returned w' out

abbrev pub read_frames : Env → Session × Option WsError → Outcome
read_frames env (w, some e) = raised w e
read_frames env (w, none) = finish (parse_loop (suc (length w.rx)) env w [] w.rx)

-- `pending` says that SSL_pending is not 0, `ready` that poll answers more than 0.
unfoldable pub read_messages : Env → Bool → Bool → List Read → Session → Outcome
unfolding receive parse_loop finish
read_messages env pending ready reads w =
    if not (is_empty w.prefetched_messages)
    then returned (record w { prefetched_messages = [] }) w.prefetched_messages
    else if w.close_received
    then raised w peer_close_received
    else if w.peer_eof && is_empty w.rx
    then raised w peer_closed
    else if not pending && is_empty w.rx && not ready
    then returned w []
    else read_frames env (receive reads w 0)
