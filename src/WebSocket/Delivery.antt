-- ===== src/WebSocket/Delivery.antt =====
-- Messages from one session to its peer, cdn/src/websocket.cpp: websocket_send_binary and
-- websocket_read_messages.
pub mod Read
use mathlib.Core.List.{append_assoc, append-nil}
use pacetun.Base.{
  ℕ, zero, suc, ◌+◌, ◌-◌, ◌*◌, ◌≤◌, ◌<◌, ◌≡◌, refl, sym, ap, subst, ◌∙◌, List, [], ◌∷◌, ◌++◌, Bool,
  true, false, not, ◌&&◌, ◌||◌, Option, none, some, ltb, leb, ◌==◌, if◌then◌else◌, length, is_empty,
  drop, map, All, IsByte, Bool-cases, inl, inr, arith, length-append, ◌⊎◌, u64, add64, add64_lem,
}
use pacetun.Record.RoundTrip.{drop_exact}
use pacetun.WebSocket.{WsError, Result, ok, err, TxFrame, Session, max_tx_bytes, max_message_bytes}
use pacetun.WebSocket.Frame.{make_frame, Frame, Parsed, found, parse_frame}
use pacetun.WebSocket.Frame.RoundTrip.{wire, limit, make_frame-ok, parse_frame-wire}
use pacetun.WebSocket.Send.{enqueue_bytes, queue_frame, send_binary}
use pacetun.WebSocket.Send.Bytes.{pending_bytes, pending_bytes-append}
use pacetun.WebSocket.Receive.{Env, on_binary, on_frame, Loop, parsed, parse_loop}

-- A mask and a payload.
abbrev pub Message : Type 0
Message = List ℕ × List ℕ

abbrev pub IsMessage : Bool → Message → Type 0
IsMessage auth (mk, p) = (length mk ≡ 4) × (All IsByte p × (length p ≤ limit auth))

abbrev pub payloads : List Message → List (List ℕ)
payloads [] = []
payloads ((mk, p) ∷ ms) = p ∷ payloads ms

-- The bytes of the frames, one behind the other.
abbrev pub wires : Bool → List Message → List ℕ
wires client [] = []
wires client ((mk, p) ∷ ms) = wire client mk 2 p ++ wires client ms

abbrev pub if_sent :
    (Session → Session × Option WsError) → Session × Option WsError → Session × Option WsError
if_sent go (w, some e) = (w, some e)
if_sent go (w, none) = go w

-- One websocket_send_binary after the other, up to the first that throws.
unfoldable pub send_all : ℕ → List Message → Session → Session × Option WsError
unfolding send_binary
send_all now [] w = (w, none)
send_all now ((mk, p) ∷ ms) w = if_sent (λ v. send_all now ms v) (send_binary w (some mk) now p)

-- What one message does to the queue.
abbrev pub Queued : Session → List ℕ → Session × Option WsError → Type 0
Queued w f r =
    (r.1 ≡ none)
    × ((r.0.client ≡ w.client)
        × ((pending_bytes r.0.tx ≡ pending_bytes w.tx ++ f)
            × (r.0.tx_queued_bytes ≡ w.tx_queued_bytes + length f)))

enqueue_bytes-Queued :
    (w : Session) (now opcode : ℕ) (p f : List ℕ)
    → w.tx_queued_bytes + length f ≤ max_tx_bytes
    → Queued w f (enqueue_bytes w now opcode p (ok f))
enqueue_bytes-Queued w now opcode p f h =
    let t : (ltb max_tx_bytes (length f) || ltb (max_tx_bytes - length f) w.tx_queued_bytes)
        ≡ false =
      ground arith in
    let sum = add64_lem w.tx_queued_bytes (length f) (omega arith) in
    let g : TxFrame = record { bytes = f; offset = 0; payload_bytes = length p; opcode = opcode } in
    rw t (
      refl,
      (
        refl,
        (
          pending_bytes-append w.tx (g ∷ []) ∙ ap (λ l. pending_bytes w.tx ++ l) (append-nil f),
          sum,
        ),
      ),
    )

send_binary-Queued :
    (w : Session) (mk : List ℕ) (now : ℕ) (p : List ℕ)
    → length p ≤ max_message_bytes
    → w.tx_queued_bytes + length (wire w.client mk 2 p) ≤ max_tx_bytes
    → Queued w (wire w.client mk 2 p) (send_binary w (some mk) now p)
unfolding send_binary queue_frame
send_binary-Queued w mk now p k h =
    subst (λ r. Queued w (wire w.client mk 2 p) (enqueue_bytes w now 2 p r))
      (sym (make_frame-ok w.client mk 2 p (omega arith) k (λ e. absurd (ground arith))))
      (enqueue_bytes-Queued w now 2 p (wire w.client mk 2 p) h)

if_sent-Queued :
    (go : Session → Session × Option WsError) (w : Session) (f g : List ℕ)
    (r : Session × Option WsError)
    → Queued w f r
    → ((v : Session)
        → v.client ≡ w.client
        → v.tx_queued_bytes ≡ w.tx_queued_bytes + length f
        → Queued v g (go v))
    → Queued w (f ++ g) (if_sent go r)
if_sent-Queued go w f g (v, some e) (ok_now, q) ih = absurd (ground arith)
if_sent-Queued go w f g (v, none) (ok_now, (same, (bytes, count))) ih =
    let (fine, (client, (more, total))) = ih v same count in
    let size = length-append f g in
    (
      fine,
      (
        client ∙ same,
        (
          more ∙ ap (λ l. l ++ g) bytes ∙ append_assoc (pending_bytes w.tx) f g,
          omega (arith, total, count, size),
        ),
      ),
    )

pub send_all-Queued :
    (now : ℕ) (auth client : Bool) (ms : List Message) (w : Session)
    → w.client ≡ client
    → All (IsMessage auth) ms
    → w.tx_queued_bytes + length (wires client ms) ≤ max_tx_bytes
    → Queued w (wires client ms) (send_all now ms w)
unfolding send_all
send_all-Queued now auth client [] w e all h =
    (refl, (refl, (sym (append-nil (pending_bytes w.tx)), omega arith)))
send_all-Queued now auth client ((mk, p) ∷ ms) w e ((four, (bytes, short)), all) h =
    let f = wire client mk 2 p in
    let size = length-append f (wires client ms) in
    let first : Queued w f (send_binary w (some mk) now p) =
      subst (λ c. Queued w (wire c mk 2 p) (send_binary w (some mk) now p)) e
        (send_binary-Queued w mk now p (ground arith) (
          subst (λ c. w.tx_queued_bytes + length (wire c mk 2 p) ≤ max_tx_bytes) (sym e)
            (omega (arith, size)))) in
    if_sent-Queued (λ v. send_all now ms v) w f (wires client ms) (send_binary w (some mk) now p)
      first
      (λ v same count.
        send_all-Queued now auth client ms v (same ∙ e) all (omega (arith, size, count)))

-- The session after the messages `ms` are read.
abbrev pub read_one : Session → List ℕ → Session
read_one w p =
    let w' = record w { rx_frames = add64 w.rx_frames 1 } in
    record w' { rx_binary_payload_bytes = add64 w'.rx_binary_payload_bytes (length p) }

unfoldable pub read_all : List Message → Session → Session
read_all [] w = w
read_all ((mk, p) ∷ ms) w = read_all ms (read_one w p)

pub parse_loop-wires :
    (fuel : ℕ) (env : Env) (client : Bool) (ms : List Message) (w : Session) (out : List (List ℕ))
    → length (wires client ms) < fuel
    → w.client ≡ not client
    → w.fragment_opcode ≡ 0
    → All (IsMessage w.authenticated) ms
    → parse_loop fuel env w out (wires client ms) ≡ parsed (read_all ms w) (out ++ payloads ms) []
unfolding parse_loop read_all on_frame on_binary
parse_loop-wires zero env client ms w out k e o all = absurd (omega arith)
parse_loop-wires (suc fuel) env client [] w out k e o all =
    ap (λ o. parsed w o []) (sym (append-nil out))
parse_loop-wires (suc fuel) env client ((mk, p) ∷ ms) w out k e o ((four, (bytes, short)), all) =
    let f = wire client mk 2 p in
    let frame : Frame = record { fin = true; opcode = 2; payload = p; size = length f } in
    let size = length-append f (wires client ms) in
    let seen : parse_frame w.client w.authenticated (f ++ wires client ms) ≡ found frame =
      subst (λ c. parse_frame c w.authenticated (f ++ wires client ms) ≡ found frame) (sym e)
        (parse_frame-wire client w.authenticated mk 2 p (wires client ms) four bytes (omega arith)
          short (λ e. absurd (ground arith))) in
    let left : drop (length f) (f ++ wires client ms) ≡ wires client ms =
      drop_exact (length f) f (wires client ms) refl in
    let idle : (w.fragment_opcode == 0) ≡ true = ground arith in
    rw (seen, left, idle)
      (parse_loop-wires fuel env client ms (read_one w p) (out ++ p ∷ []) (omega (arith, size)) e o
          all
        ∙ ap (λ l. parsed (read_all ms (read_one w p)) l [])
            (append_assoc out (p ∷ []) (payloads ms)))
