-- ===== src/WebSocket/Receive/Handlers.antt =====
-- The session through the handlers of websocket_read_messages, cdn/src/websocket.cpp.
use pacetun.Base.{
  ℕ, ◌+◌, ◌-◌, ◌*◌, ◌≤◌, ◌≡◌, refl, sym, subst, List, [], ◌∷◌, ◌++◌, Bool, true, false, Option,
  none, some, ltb, leb, ◌==◌, if◌then◌else◌, length, is_empty, drop, length-append, length-drop,
  add64, Bool-cases, inl, inr, arith,
}
use pacetun.Flow.{at}
use pacetun.WebSocket.{
  WsError, Session, max_message_bytes, max_rx_buffered_bytes, max_remembered_pongs,
}
use pacetun.WebSocket.Frame.{Frame}
use pacetun.WebSocket.Send.{queue_frame, send_pong}
use pacetun.WebSocket.Send.Bytes.{IsCounted, queue_frame-IsCounted, IsCounted-same}
use pacetun.WebSocket.Receive.{
  Env, Next, go_on, done, throw, on_binary, on_continuation, on_ping, on_pong, closing, on_close,
  on_frame, sent_or_thrown, valid_close_status,
}

-- What holds of a session between the calls.
pub record IsSound (w : Session) : Type 0 where
  pub queue : IsCounted w
  pub fragment : length w.fragment_payload ≤ max_message_bytes
  pub pongs : length w.pong_payloads ≤ max_remembered_pongs
  pub buffer : length w.rx ≤ max_rx_buffered_bytes

-- Queueing a frame touches the queue alone.
queue_frame_others :
    (w : Session) (mask : Option (List ℕ)) (now opcode : ℕ) (p : List ℕ)
    → let v = (queue_frame w mask now opcode p).0 in
      ((v.fragment_payload ≡ w.fragment_payload) × (v.pong_payloads ≡ w.pong_payloads))
      × (v.rx ≡ w.rx)
unfolding queue_frame
queue_frame_others w mask now opcode p = ground arith

queue_frame-IsSound :
    (w : Session) (mask : Option (List ℕ)) (now opcode : ℕ) (p : List ℕ)
    → IsSound w
    → IsSound (queue_frame w mask now opcode p).0
queue_frame-IsSound w mask now opcode p h =
    let ((e, q), r) = queue_frame_others w mask now opcode p in
    record {
      queue = queue_frame-IsCounted w mask now opcode p h.queue;
      fragment = subst (λ l. length l ≤ max_message_bytes) (sym e) h.fragment;
      pongs = subst (λ l. length l ≤ max_remembered_pongs) (sym q) h.pongs;
      buffer = subst (λ l. length l ≤ max_rx_buffered_bytes) (sym r) h.buffer;
    }

-- A change of the other fields.
module _ (w v : Session) (e : v.tx ≡ w.tx) (q : v.tx_queued_bytes ≡ w.tx_queued_bytes)
    (r : v.rx ≡ w.rx) (h : IsSound w) where
  pub changed :
      length v.fragment_payload ≤ max_message_bytes
      → length v.pong_payloads ≤ max_remembered_pongs
      → IsSound v
  changed f p = record {
    queue = IsCounted-same w v e q h.queue;
    fragment = f;
    pongs = p;
    buffer = subst (λ l. length l ≤ max_rx_buffered_bytes) (sym r) h.buffer;
  }

abbrev pub Keeps : Next → Type 0
Keeps (go_on w out) = IsSound w
Keeps (done w out) = IsSound w
Keeps (throw w e) = IsSound w

Keeps-if : (b : Bool) (x y : Next) → Keeps x → Keeps y → Keeps (if b then x else y)
Keeps-if true x y h k = h
Keeps-if false x y h k = k

sent_or_thrown-Keeps :
    (out : List (List ℕ)) (r : Session × Option WsError)
    → IsSound r.0
    → Keeps (sent_or_thrown out r)
sent_or_thrown-Keeps out (w, none) h = h
sent_or_thrown-Keeps out (w, some e) h = h

module _ (env : Env) (w : Session) (out : List (List ℕ)) (f : Frame) (h : IsSound w)
    (k : length f.payload ≤ max_message_bytes) where
  on_binary-Keeps : Keeps (on_binary w out f)
  unfolding on_binary
  on_binary-Keeps = elim (Bool-cases (w.fragment_opcode == 0)) [
    | inl fresh ↦ elim (Bool-cases f.fin) [
      | inl last ↦ rw (fresh, last) (changed w _ refl refl refl h h.fragment h.pongs)
      | inr more ↦ rw (fresh, more) (changed w _ refl refl refl h k h.pongs)
    ]
    | inr inside ↦ rw inside h
  ]

  on_continuation-Keeps : Keeps (on_continuation w out f)
  unfolding on_continuation
  on_continuation-Keeps = elim (Bool-cases (w.fragment_opcode == 0)) [
    | inl outside ↦ rw outside h
    | inr inside ↦
        elim (Bool-cases (ltb (max_message_bytes - length f.payload) (length w.fragment_payload))) [
          | inl large ↦ rw (inside, large) h
          | inr fits ↦
              let size = length-append w.fragment_payload f.payload in
              let v = record w { fragment_payload = w.fragment_payload ++ f.payload } in
              let longer : IsSound v =
                changed w v refl refl refl h (ground (arith, size)) h.pongs in
              elim (Bool-cases f.fin) [
                | inl last ↦ elim (Bool-cases (w.fragment_opcode == 2)) [
                  | inl binary ↦
                      rw (inside, fits, last, binary)
                        (changed w _ refl refl refl h (omega arith) h.pongs)
                  | inr other ↦ rw (inside, fits, last, other) longer
                ]
                | inr more ↦ rw (inside, fits, more) longer
              ]
        ]
  ]

  on_ping-Keeps : Keeps (on_ping env w out f)
  unfolding on_ping send_pong
  on_ping-Keeps =
      let w' = record w { rx_ping_frames = add64 w.rx_ping_frames 1 } in
      sent_or_thrown-Keeps out
        (queue_frame w' (env.mask w.rx_frames) (env.now w.rx_frames) 10 f.payload)
        (queue_frame-IsSound w' (env.mask w.rx_frames) (env.now w.rx_frames) 10 f.payload
          (changed w w' refl refl refl h h.fragment h.pongs))

  on_pong-Keeps : Keeps (on_pong w out f)
  unfolding on_pong
  on_pong-Keeps =
      let kept =
        if leb max_remembered_pongs (length w.pong_payloads)
        then drop 1 w.pong_payloads
        else w.pong_payloads in
      let size = length-append kept (f.payload ∷ []) in
      let dropped = length-drop 1 w.pong_payloads in
      changed w _ refl refl refl h h.fragment (ground (arith, size, dropped, h.pongs))

  closing-Keeps : (v : Session) → IsSound v → Keeps (closing env v out f.payload)
  closing-Keeps v s =
      let q = queue_frame-IsSound v (env.mask v.rx_frames) (env.now v.rx_frames) 8 f.payload s in
      let w' = (queue_frame v (env.mask v.rx_frames) (env.now v.rx_frames) 8 f.payload).0 in
      let closed : IsSound (record w' { close_received = true }) =
        changed w' _ refl refl refl q q.fragment q.pongs in
      elim (Bool-cases (is_empty out)) [
        | inl nothing ↦ rw nothing closed
        | inr some_out ↦ rw some_out closed
      ]

  on_close-Keeps : Keeps (on_close env w out f)
  unfolding on_close
  on_close-Keeps =
      let p = f.payload in
      let code = at p 0 * 256 + at p 1 in
      let coded = record w {
        close_code = code;
        close_has_code = true;
        close_reason_bytes = length p - 2;
      } in
      elim (Bool-cases (length p == 1)) [
        | inl one ↦ rw one h
        | inr other ↦ elim (Bool-cases (leb 2 (length p))) [
          | inl two ↦ elim (Bool-cases (valid_close_status code)) [
            | inl good ↦
                rw (other, two, good)
                  (closing-Keeps coded (changed w coded refl refl refl h h.fragment h.pongs))
            | inr wrong ↦ rw (other, two, wrong) h
          ]
          | inr none_given ↦ rw (other, none_given) (closing-Keeps w h)
        ]
      ]

  pub on_frame-Keeps : Keeps (on_frame env w out f)
  unfolding on_frame
  on_frame-Keeps = Keeps-if (f.opcode == 2) _ _ on_binary-Keeps (
      Keeps-if (f.opcode == 0) _ _ on_continuation-Keeps (
        Keeps-if (f.opcode == 9) _ _ on_ping-Keeps (
          Keeps-if (f.opcode == 10) _ _ on_pong-Keeps
            (Keeps-if (f.opcode == 8) _ _ on_close-Keeps (Keeps-if (f.opcode == 1) _ _ h h)))))
