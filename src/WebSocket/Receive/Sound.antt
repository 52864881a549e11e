-- ===== src/WebSocket/Receive/Sound.antt =====
-- The session through websocket_read_messages of cdn/src/websocket.cpp.
use pacetun.Base.{
  ℕ, zero, suc, ◌-◌, ◌≤◌, ◌<◌, refl, List, [], ◌∷◌, ◌++◌, Bool, true, false, not, ◌&&◌, Option,
  none, some, ltb, ◌==◌, if◌then◌else◌, length, is_empty, drop, length-append, length-drop,
  length-take, add64, Bool-cases, inl, inr, arith,
}
use pacetun.WebSocket.{WsError, Session, max_message_bytes, max_rx_buffered_bytes}
use pacetun.WebSocket.Frame.{Parsed, incomplete, rejected, found, parse_frame}
use pacetun.WebSocket.Send.Bytes.{IsCounted-same}
use pacetun.WebSocket.Receive.Found.{FitsIn, parse_frame-FitsIn}
use pacetun.WebSocket.Receive.Handlers.{IsSound, Keeps, changed, on_frame-Keeps}
use pacetun.WebSocket.Receive.{
  Env, Next, go_on, done, throw, on_frame, Loop, parsed, thrown, stuck, on_next, on_parsed,
  parse_loop, finish, Outcome, returned, raised, unfinished, read_frames, read_messages, Read,
  io_read, Got, got, again, failed, on_read, receive,
}

-- The loop ends, and what it leaves is part of what it was given.
abbrev Ends : ℕ → Loop → Type 0
Ends n (parsed w out rest) = IsSound w × (length rest ≤ n)
Ends n (thrown w e) = IsSound w
Ends n stuck = ⊥

module _ (env : Env) (n : ℕ) (go : Session → List (List ℕ) → List ℕ → Loop)
    (ih : (w : Session) (out : List (List ℕ)) (b : List ℕ)
      → length b < n
      → IsSound w
      → Ends n (go w out b)) where
  on_next-Ends : (b : List ℕ) (r : Next) → length b < n → Keeps r → Ends n (on_next go b r)
  on_next-Ends b (go_on w out) k h = ih w out b k h
  on_next-Ends b (done w out) k h = (h, omega arith)
  on_next-Ends b (throw w e) k h = h

  on_parsed-Ends :
      (w : Session) (out : List (List ℕ)) (b : List ℕ) (r : Parsed)
      → length b ≤ n
      → FitsIn w.authenticated b r
      → IsSound w
      → Ends n (on_parsed env go w out b r)
  on_parsed-Ends w out b incomplete k fits h = (h, k)
  on_parsed-Ends w out b (rejected e) k fits h = h
  on_parsed-Ends w out b (found f) k fits h =
      let w' = record w { rx_frames = add64 w.rx_frames 1 } in
      let left = length-drop f.size b in
      let within : length f.payload ≤ max_message_bytes = ground (arith, fits.1.1) in
      on_next-Ends (drop f.size b) (on_frame env w' out f) (omega (arith, left, fits.0, fits.1.0))
        (on_frame-Keeps env w' out f (changed w w' refl refl refl h h.fragment h.pongs) within)

Ends-more : (m n : ℕ) (r : Loop) → m ≤ n → Ends m r → Ends n r
Ends-more m n (parsed w out rest) k h = (h.0, omega (arith, h.1))
Ends-more m n (thrown w e) k h = h
Ends-more m n stuck k h = h

parse_loop-Ends :
    (fuel : ℕ) (env : Env) (w : Session) (out : List (List ℕ)) (b : List ℕ)
    → length b < fuel
    → IsSound w
    → Ends (length b) (parse_loop fuel env w out b)
unfolding parse_loop
parse_loop-Ends zero env w out b k h = absurd (omega arith)
parse_loop-Ends (suc fuel) env w out b k h =
    on_parsed-Ends env (length b) (λ v o c. parse_loop fuel env v o c)
      (λ v o c j s.
        Ends-more (length c) (length b) (parse_loop fuel env v o c) (omega arith)
          (parse_loop-Ends fuel env v o c (omega arith) s))
      w out b (parse_frame w.client w.authenticated b) (omega arith)
      (parse_frame-FitsIn w.client w.authenticated b) h

-- What a call leaves, whether it returns or throws.
abbrev pub Leaves : Outcome → Type 0
Leaves (returned w out) = IsSound w
Leaves (raised w e) = IsSound w
Leaves unfinished = ⊥

Leaves-if : (b : Bool) (x y : Outcome) → Leaves x → Leaves y → Leaves (if b then x else y)
Leaves-if true x y h k = h
Leaves-if false x y h k = k

with_rest :
    (w : Session) (rest : List ℕ)
    → IsSound w
    → length rest ≤ max_rx_buffered_bytes
    → IsSound (record w { rx = rest })
with_rest w rest h k = record {
  queue = IsCounted-same w (record w { rx = rest }) refl refl h.queue;
  fragment = h.fragment;
  pongs = h.pongs;
  buffer = k;
}

finish-Leaves : (n : ℕ) (r : Loop) → n ≤ max_rx_buffered_bytes → Ends n r → Leaves (finish r)
unfolding finish
finish-Leaves n stuck k h = h
finish-Leaves n (thrown w e) k h = h
finish-Leaves n (parsed w out rest) k h =
    let s = with_rest w rest h.0 (omega (arith, h.1)) in
    Leaves-if (w.peer_eof && not (is_empty rest)) _ _ s (
      Leaves-if (w.peer_eof && not (w.fragment_opcode == 0)) _ _ s
        (Leaves-if (w.peer_eof && is_empty out) _ _ s s))

io_read_same : (w : Session) (r : Read) → IsSound w → IsSound (io_read w r).0
unfolding io_read
io_read_same w (Read.ssl_read b) h = changed w _ refl refl refl h h.fragment h.pongs
io_read_same w (Read.sock_read b) h = changed w _ refl refl refl h h.fragment h.pongs
io_read_same w Read.want_read h = changed w _ refl refl refl h h.fragment h.pongs
io_read_same w Read.want_write h = changed w _ refl refl refl h h.fragment h.pongs
io_read_same w Read.zero_return h = h
io_read_same w (Read.ssl_failed true) h = h
io_read_same w (Read.ssl_failed false) h = h
io_read_same w Read.would_block h = changed w _ refl refl refl h h.fragment h.pongs
io_read_same w Read.sock_failed h = h

-- One read takes 64 KiB at most.
abbrev Small : Got → Type 0
Small (got b) = length b ≤ 65536
Small again = Unit
Small failed = Unit

io_read-Small : (w : Session) (r : Read) → Small (io_read w r).1
unfolding io_read
io_read-Small w (Read.ssl_read b) = let size = length-take 65536 b in omega (arith, size)
io_read-Small w (Read.sock_read b) = let size = length-take 65536 b in omega (arith, size)
io_read-Small w Read.want_read = tt
io_read-Small w Read.want_write = tt
io_read-Small w Read.zero_return = omega arith
io_read-Small w (Read.ssl_failed true) = tt
io_read-Small w (Read.ssl_failed false) = tt
io_read-Small w Read.would_block = tt
io_read-Small w Read.sock_failed = tt

on_read-IsSound :
    (go : Session → ℕ → Session × Option WsError)
    → ((v : Session) (n : ℕ) → IsSound v → IsSound (go v n).0)
    → (w : Session) (received : ℕ) (a : Got) → Small a
    → IsSound w
    → IsSound (on_read go w received a).0
on_read-IsSound go ih w received (got []) k h = changed w _ refl refl refl h h.fragment h.pongs
on_read-IsSound go ih w received (got (x ∷ xs)) k h =
    let total = length-append w.rx (x ∷ xs) in
    elim (Bool-cases (ltb (max_rx_buffered_bytes - length (x ∷ xs)) (length w.rx))) [
      | inl full ↦ rw full h
      | inr room ↦ rw room (ih _ _ (with_rest w (w.rx ++ x ∷ xs) h (ground (arith, total))))
    ]
on_read-IsSound go ih w received again k h = h
on_read-IsSound go ih w received failed k h = h

receive-IsSound : (rs : List Read) (w : Session) (n : ℕ) → IsSound w → IsSound (receive rs w n).0
unfolding receive
receive-IsSound [] w n h = elim (Bool-cases (ltb n 262144)) [
  | inl room ↦ rw room (changed w _ refl refl refl h h.fragment h.pongs)
  | inr full ↦ rw full h
]
receive-IsSound (r ∷ rs) w n h = elim (Bool-cases (ltb n 262144)) [
  | inl room ↦ rw room (
      on_read-IsSound (λ v m. receive rs v m) (λ v m s. receive-IsSound rs v m s) (io_read w r).0 n
        (io_read w r).1 (io_read-Small w r) (io_read_same w r h))
  | inr full ↦ rw full h
]

read_frames-Leaves :
    (env : Env) (r : Session × Option WsError) → IsSound r.0 → Leaves (read_frames env r)
read_frames-Leaves env (w, some e) h = h
read_frames-Leaves env (w, none) h =
    finish-Leaves (length w.rx) (parse_loop (suc (length w.rx)) env w [] w.rx) h.buffer
      (parse_loop-Ends (suc (length w.rx)) env w [] w.rx (omega arith) h)

-- A call of websocket_read_messages on a session whose transmit counter is right, whose fragment
-- and receive buffer are within their limits and that remembers at most 16 pongs returns or
-- throws within the fuel for every sequence of reads, and leaves a session of which the same
-- holds.
pub read_messages-Leaves :
    (env : Env) (pending ready : Bool) (reads : List Read) (w : Session)
    → IsSound w
    → Leaves (read_messages env pending ready reads w)
unfolding read_messages
read_messages-Leaves env pending ready reads w h =
    Leaves-if (not (is_empty w.prefetched_messages)) _ _
      (changed w _ refl refl refl h h.fragment h.pongs)
      (Leaves-if w.close_received _ _ h (
        Leaves-if (w.peer_eof && is_empty w.rx) _ _ h (
          Leaves-if (not pending && is_empty w.rx && not ready) _ _ h
            (read_frames-Leaves env (receive reads w 0) (receive-IsSound reads w 0 h)))))
