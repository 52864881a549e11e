-- ===== src/WebSocket/Send.antt =====
-- The transmit queue of cdn/src/websocket.cpp: queue_frame, websocket_send_*, websocket_flush,
-- websocket_tx_*, best_effort_close_frame and websocket_close.
pub mod Bytes
use pacetun.Base.{
  ℕ, zero, suc, ◌+◌, ◌-◌, ◌*◌, List, [], ◌∷◌, ◌++◌, Bool, true, false, not, ◌&&◌, ◌||◌, Option,
  none, some, ltb, leb, ◌==◌, if◌then◌else◌, length, is_empty, drop, take, min, max, add64, sub64,
}
use pacetun.Base.Int.{ℤ, pos, negsuc}
use pacetun.WebSocket.{
  WsError, tx_limit, write_failed, Result, ok, err, TxFrame, Session, max_tx_bytes,
}
use pacetun.WebSocket.Frame.{make_frame}

-- With the frame made.
abbrev pub enqueue_bytes : Session → ℕ → ℕ → List ℕ → Result (List ℕ) → Session × Option WsError
enqueue_bytes w now opcode p (err e) = (w, some e)
enqueue_bytes w now opcode p (ok f) =
    if ltb max_tx_bytes (length f) || ltb (max_tx_bytes - length f) w.tx_queued_bytes
    then (w, some tx_limit)
    else (
      record w {
        tx_queued_bytes = add64 w.tx_queued_bytes (length f);
        tx =
            w.tx
            ++ record { bytes = f; offset = 0; payload_bytes = length p; opcode = opcode } ∷ [];
        tx_last_progress_ms = if is_empty w.tx then now else w.tx_last_progress_ms;
      },
      none,
    )

-- The exception is the second component; `now` is mono_ms().
unfoldable pub queue_frame : Session → Option (List ℕ) → ℕ → ℕ → List ℕ → Session × Option WsError
unfolding make_frame
queue_frame w mask now opcode p = enqueue_bytes w now opcode p (make_frame w.client mask opcode p)

unfoldable pub send_binary : Session → Option (List ℕ) → ℕ → List ℕ → Session × Option WsError
unfolding queue_frame
send_binary w mask now p = queue_frame w mask now 2 p

unfoldable pub send_ping : Session → Option (List ℕ) → ℕ → List ℕ → Session × Option WsError
unfolding queue_frame
send_ping w mask now p = queue_frame w mask now 9 p

unfoldable pub send_pong : Session → Option (List ℕ) → ℕ → List ℕ → Session × Option WsError
unfolding queue_frame
send_pong w mask now p = queue_frame w mask now 10 p

-- account_completed_frame
unfoldable pub account : Session → TxFrame → Session
account w f =
    if f.opcode == 2
    then record w {
      tx_binary_frames = add64 w.tx_binary_frames 1;
      tx_binary_payload_bytes = add64 w.tx_binary_payload_bytes f.payload_bytes;
    }
    else if f.opcode == 9
    then record w { tx_ping_frames = add64 w.tx_ping_frames 1 }
    else if f.opcode == 10
    then record w { tx_pong_frames = add64 w.tx_pong_frames 1 }
    else w

-- What SSL_write_ex or send answers: a number of bytes taken, or why not.
pub data Io : Type 0 where
  ssl_done sock_done : ℕ → Io
  want_read want_write zero_return ssl_failed would_block sock_failed : Io

-- What io_write answers: n >= 0, -1 with EAGAIN, or any other failure.
pub data Written : Type 0 where
  wrote : ℕ → Written
  again failed : Written

unfoldable pub io_write : Session → Io → Session × Written
io_write w (ssl_done n) = (record w { tx_wait = 0 }, wrote n)
io_write w want_read = (record w { tx_wait = 1 }, again)
io_write w want_write = (record w { tx_wait = 2 }, again)
io_write w zero_return = (w, wrote 0)
io_write w ssl_failed = (w, failed)
io_write w (sock_done n) = (record w { tx_wait = 0 }, wrote n)
io_write w would_block = (record w { tx_wait = 2 }, again)
io_write w sock_failed = (w, failed)

-- What a flush did: the session, the bytes that reached the socket, and the exception.
pub record Flushed : Type 0 where
  pub session : Session
  pub sent : List ℕ
  pub error : Option WsError

-- `n` bytes of the first frame are on the socket; the frame leaves the queue if they were the last.
abbrev pub progress : Session → TxFrame → List TxFrame → ℕ → ℕ → Session
progress w f fs n now =
    let w' = record w { tx_queued_bytes = sub64 w.tx_queued_bytes n } in
    if f.offset + n == length f.bytes
    then (let a = account w' f in
        record a { tx = fs; tx_last_progress_ms = if is_empty fs then 0 else now })
    else record w' { tx = record f { offset = f.offset + n } ∷ fs; tx_last_progress_ms = now }

-- Frames at the front with nothing left to send are counted and dropped.
unfoldable pub drop_sent : List TxFrame → Session → Session
unfolding account
drop_sent [] w = record w { tx = [] }
drop_sent (f ∷ fs) w =
    let rest = drop_sent fs (account w f) in
    if leb (length f.bytes) f.offset then rest else record w { tx = f ∷ fs }

abbrev pub send_more : List ℕ → Flushed → Flushed
send_more bytes r = record r { sent = bytes ++ r.sent }

-- What io_write answered for the first frame. The socket takes `want` bytes at most.
abbrev pub answered :
    (Session → ℕ → Flushed) → Session → TxFrame → List TxFrame → ℕ → ℕ → Written → Flushed
answered go w f fs budget now (wrote n) =
    let m = min n (min (length f.bytes - f.offset) budget) in
    let more = go (progress w f fs m now) (budget - m) in
    if m == 0
    then record { session = w; sent = []; error = some write_failed }
    else send_more (take m (drop f.offset f.bytes)) more
answered go w f fs budget now again = record { session = w; sent = []; error = none }
answered go w f fs budget now failed = record { session = w; sent = []; error = some write_failed }

-- The first frame of the queue, after `drop_sent`.
abbrev pub flush_front : (Session → ℕ → Flushed) → Session → List TxFrame → ℕ → ℕ → Io → Flushed
flush_front go w [] budget now io = record { session = w; sent = []; error = none }
flush_front go w (f ∷ fs) budget now io =
    let (w', answer) = io_write w io in answered go w' f fs budget now answer

-- The `while` loop: each io_write answers one element of the list, with the time after it. A list that
-- ends before the loop does gives what the loop has reached.
unfoldable pub flush : List (Io × ℕ) → Session → ℕ → Flushed
unfolding io_write drop_sent account
flush [] w budget = record { session = w; sent = []; error = none }
flush ((io, now) ∷ ios) w budget =
    if budget == 0
    then record { session = w; sent = []; error = none }
    else (let w' = drop_sent w.tx w in flush_front (λ v b. flush ios v b) w' w'.tx budget now io)

unfoldable pub tx_pending : Session → Bool
tx_pending w = not (is_empty w.tx)

-- POLLIN and POLLOUT.
pub data Poll : Type 0 where
  no_events poll_in poll_out : Poll

unfoldable pub tx_poll_events : Session → Poll
tx_poll_events w = if is_empty w.tx then no_events else if w.tx_wait == 1 then poll_in else poll_out

unfoldable pub rx_poll_events : Session → Poll
rx_poll_events w = if w.rx_wait == 2 then poll_out else poll_in

unfoldable pub tx_stalled : Session → ℤ → ℕ → Bool
tx_stalled w (negsuc n) now = false
tx_stalled w (pos timeout_ms) now =
    not (is_empty w.tx)
    && not (w.tx_last_progress_ms == 0)
    && not (timeout_ms == 0)
    && leb w.tx_last_progress_ms now
    && ltb timeout_ms (now - w.tx_last_progress_ms)

unfoldable pub take_pongs : Session → Session × List (List ℕ)
take_pongs w = (record w { pong_payloads = [] }, w.pong_payloads)

-- What is left of a session that is closed; the close frame is written as far as the socket takes it.
unfoldable pub close_session : Session → Session
close_session w = record w {
  tx = [];
  tx_queued_bytes = 0;
  tx_last_progress_ms = 0;
  tx_wait = 0;
  rx_wait = 0;
}
