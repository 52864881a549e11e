-- ===== src/WebSocket/Delivery/Read.antt =====
-- Messages read by the peer, cdn/src/websocket.cpp: websocket_read_messages after websocket_send_binary.
use pacetun.Base.{
  ℕ, suc, ◌+◌, ◌-◌, ◌≤◌, ◌<◌, ◌≡◌, refl, sym, ap, subst, ◌∙◌, List, [], ◌∷◌, ◌++◌, Bool, true,
  false, not, ◌&&◌, Option, none, some, ltb, if_yes, if_no, length, is_empty, All, arith,
  length-append,
}
use mathlib.Core.List.{append_assoc, append-nil}
use pacetun.WebSocket.{Session, max_rx_buffered_bytes}
use pacetun.WebSocket.Send.Bytes.{pending_bytes, take_all}
use pacetun.WebSocket.Receive.{
  Env, parsed, Read, sock_read, got, io_read, on_read, receive, finish, Outcome, returned, raised,
  unfinished, read_frames, read_messages,
}
use pacetun.WebSocket.Delivery.{
  Message, IsMessage, payloads, wires, send_all, send_all-Queued, read_one, read_all,
  parse_loop-wires,
}

-- What one read takes.
abbrev pub IsChunk : List ℕ → Type 0
IsChunk c = (0 < length c) × (length c ≤ 65536)

abbrev pub joined : List (List ℕ) → List ℕ
joined [] = []
joined (c ∷ cs) = c ++ joined cs

abbrev pub reads : List (List ℕ) → List Read
reads [] = []
reads (c ∷ cs) = sock_read c ∷ reads cs

io_read-sock_read :
    (w : Session) (c : List ℕ)
    → length c ≤ 65536
    → io_read w (sock_read c) ≡ (record w { rx_wait = 0 }, got c)
unfolding io_read
io_read-sock_read w c h = ap (λ b. (record w { rx_wait = 0 }, got b)) (take_all 65536 c h)

receive-reads :
    (cs : List (List ℕ)) (w : Session) (n : ℕ)
    → All IsChunk cs
    → n + length (joined cs) < 262144
    → length w.rx + length (joined cs) ≤ max_rx_buffered_bytes
    → receive (reads cs) w n ≡ (record w { rx = w.rx ++ joined cs; rx_wait = 1 }, none)
unfolding receive
receive-reads [] w n all h k =
    let room : ltb n 262144 ≡ true = ground arith in rw (room, append-nil w.rx) refl
receive-reads ([] ∷ cs) w n (c, all) h k = absurd (omega (arith, c.0))
receive-reads ((x ∷ xs) ∷ cs) w n (c, all) h k =
    let one = x ∷ xs in
    let room : ltb n 262144 ≡ true = ground arith in
    let size = length-append one (joined cs) in
    let longer = length-append w.rx one in
    let whole = io_read-sock_read w one c.1 in
    let fits : ltb (max_rx_buffered_bytes - length one) (length w.rx) ≡ false =
      ground (arith, size) in
    let v : Session = record w { rx_wait = 0; rx = w.rx ++ one } in
    let go = λ (v : Session) (m : ℕ). receive (reads cs) v m in
    if_yes (ltb n 262144) _ _ room
    ∙ ap (λ r. on_read go r.0 n r.1) whole
    ∙ if_no (ltb (max_rx_buffered_bytes - length one) (length w.rx)) _ _ fits
    ∙ receive-reads cs v (n + length one) all (omega (arith, size)) (omega (arith, size, longer))
    ∙ ap (λ l. (record w { rx = l; rx_wait = 1 }, none)) (append_assoc w.rx one (joined cs))

-- A session that waits for a message.
pub record Waits (w : Session) : Type 0 where
  pub nothing_kept : w.prefetched_messages ≡ []
  pub no_close : w.close_received ≡ false
  pub no_end : w.peer_eof ≡ false
  pub no_bytes : w.rx ≡ []
  pub no_fragment : w.fragment_opcode ≡ 0

abbrev pub messages : Outcome → Option (List (List ℕ))
messages (returned w out) = some out
messages (raised w e) = none
messages unfinished = none

read_all-peer_eof : (ms : List Message) (w : Session) → (read_all ms w).peer_eof ≡ w.peer_eof
unfolding read_all
read_all-peer_eof [] w = refl
read_all-peer_eof ((mk, p) ∷ ms) w = read_all-peer_eof ms (read_one w p)

finish_whole :
    (w : Session) (out : List (List ℕ))
    → w.peer_eof ≡ false
    → messages (finish (parsed w out [])) ≡ some out
unfolding finish
finish_whole w out e = ground (arith, e)

-- What the peer reads.
module _ (env : Env) (pending client : Bool) (ms : List Message) (chunks : List (List ℕ))
    (w : Session) (e : w.client ≡ not client) (h : Waits w)
    (all : All (IsMessage w.authenticated) ms) (split : All IsChunk chunks)
    (bytes : joined chunks ≡ wires client ms) (few : length (joined chunks) < 262144) where
  abbrev filled : List ℕ → Session
  filled b = record w { rx = b; rx_wait = 1 }

  buffered : w.rx ++ joined chunks ≡ wires client ms
  buffered = ap (λ l. l ++ joined chunks) h.no_bytes ∙ bytes

  received : receive (reads chunks) w 0 ≡ (filled (wires client ms), none)
  received =
      receive-reads chunks w 0 split (omega (arith, few)) (
        subst (λ l. length l + length (joined chunks) ≤ max_rx_buffered_bytes) (sym h.no_bytes)
          (omega (arith, few)))
      ∙ ap (λ b. (filled b, none)) buffered

  parsed_all : messages (read_frames env (filled (wires client ms), none)) ≡ some (payloads ms)
  parsed_all =
      let b = wires client ms in
      let v = filled b in
      ap (λ r. messages (finish r))
        (parse_loop-wires (suc (length b)) env client ms v [] (omega arith) e h.no_fragment all)
      ∙ finish_whole (read_all ms v) (payloads ms) (read_all-peer_eof ms v ∙ h.no_end)

  read_messages-wires :
      messages (read_messages env pending true (reads chunks) w) ≡ some (payloads ms)
  unfolding read_messages
  read_messages-wires =
      let kept : not (is_empty w.prefetched_messages) ≡ false =
        ap (λ l. not (is_empty l)) h.nothing_kept in
      let ended : (w.peer_eof && is_empty w.rx) ≡ false = ap (λ b. b && is_empty w.rx) h.no_end in
      let quiet : (not pending && is_empty w.rx && not true) ≡ false = ground arith in
      ap messages (
        if_no (not (is_empty w.prefetched_messages)) _ _ kept
        ∙ if_no w.close_received _ _ h.no_close
        ∙ if_no (w.peer_eof && is_empty w.rx) _ _ ended
        ∙ if_no (not pending && is_empty w.rx && not true) _ _ quiet
        ∙ ap (read_frames env) received)
      ∙ parsed_all

-- If the messages are of bytes, within the limit of the reader, each with a mask of four bytes,
-- if their frames are together below 256 KiB, if the queue of the sender is empty and its counter
-- 0, and if a waiting reader of the other role is given the bytes that the sends have queued, cut
-- anywhere into reads of 1 to 65536 bytes, then no send throws and websocket_read_messages
-- returns exactly the messages, in order.
pub read_messages-send_all :
    (env : Env) (pending : Bool) (now : ℕ) (ms : List Message) (chunks : List (List ℕ))
    (c w : Session)
    → w.client ≡ not c.client
    → c.tx ≡ []
    → c.tx_queued_bytes ≡ 0
    → Waits w
    → All (IsMessage w.authenticated) ms
    → length (wires c.client ms) < 262144
    → All IsChunk chunks
    → joined chunks ≡ pending_bytes (send_all now ms c).0.tx
    → ((send_all now ms c).1 ≡ none)
      × (messages (read_messages env pending true (reads chunks) w) ≡ some (payloads ms))
read_messages-send_all env pending now ms chunks c w e nothing none_queued h all few split bytes =
    let (fine, (same, (queued, count))) =
      send_all-Queued now w.authenticated c.client ms c refl all
        (omega (arith, few, none_queued)) in
    let sent : joined chunks ≡ wires c.client ms =
      bytes ∙ queued ∙ ap (λ q. pending_bytes q ++ wires c.client ms) nothing in
    (
      fine,
      read_messages-wires env pending c.client ms chunks w e h all split sent
          (subst (λ l. length l < 262144) (sym sent) few),
    )
