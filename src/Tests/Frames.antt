-- ===== src/Tests/Frames.antt =====
-- Frames between a client and a server.
use pacetun.Base.{
  ℕ, ◌≡◌, refl, List, [], ◌∷◌, ◌++◌, Bool, true, false, none, some, length, All, IsByte, take, drop,
  arith, xor_bits, add64,
}
use pacetun.WebSocket.{ok, masked_server_frame, Session, new_session}
use pacetun.WebSocket.Frame.{make_frame, apply_mask, length_bytes, found, rejected, parse_frame}
use pacetun.WebSocket.Frame.RoundTrip.{wire, parse_frame-make_frame}
use pacetun.WebSocket.Frame.Direction.{parse_frame-reflected}
use pacetun.WebSocket.Send.{sock_done, would_block, queue_frame, send_binary, flush}
use pacetun.WebSocket.Send.Bytes.{
  IsCounted, queue_frame-IsCounted, MovedWithin, flush-Moved, pending_bytes,
}
use pacetun.WebSocket.Receive.{Env, sock_read, read_messages}
use pacetun.WebSocket.Receive.Handlers.{IsSound}
use pacetun.WebSocket.Receive.Sound.{Leaves, read_messages-Leaves}
use pacetun.WebSocket.Delivery.{Message, send_all}
use pacetun.WebSocket.Delivery.Read.{reads, Waits, messages, read_messages-send_all}

abbrev mask : List ℕ
mask = 9 ∷ 8 ∷ 7 ∷ 6 ∷ []

abbrev packet : List ℕ
packet = 69 ∷ 0 ∷ 255 ∷ []

packet-IsByte : All IsByte packet
packet-IsByte = (omega arith, (omega arith, (omega arith, tt)))

parse_frame-make_frame_example :
    (make_frame true (some mask) 2 packet ≡ ok (wire true mask 2 packet))
    × (parse_frame false false (wire true mask 2 packet ++ 136 ∷ [])
        ≡ found (record {
          fin = true;
          opcode = 2;
          payload = packet;
          size = length (wire true mask 2 packet);
        }))
parse_frame-make_frame_example =
    parse_frame-make_frame true false mask 2 packet (136 ∷ []) refl packet-IsByte (omega arith)
      (omega arith) (λ e. absurd (ground arith))

parse_frame-reflected_example :
    (make_frame true (some mask) 2 packet ≡ ok (wire true mask 2 packet))
    × (parse_frame true true (wire true mask 2 packet ++ 136 ∷ []) ≡ rejected masked_server_frame)
parse_frame-reflected_example =
    parse_frame-reflected true true mask 2 packet (136 ∷ []) (omega arith) (omega arith)
      (λ e. absurd (ground arith))

new_session-IsCounted : (client : Bool) → IsCounted (new_session client)
new_session-IsCounted client = record { counted = refl; within = omega arith; started = tt }

abbrev queued : Session
queued = (queue_frame (new_session true) (some mask) 50 2 packet).0

queued-IsCounted : IsCounted queued
queued-IsCounted =
    queue_frame-IsCounted (new_session true) (some mask) 50 2 packet (new_session-IsCounted true)

flush-Moved_example :
    MovedWithin queued (flush ((sock_done 4, 51) ∷ (would_block, 52) ∷ []) queued 4096) 4096
flush-Moved_example =
    flush-Moved ((sock_done 4, 51) ∷ (would_block, 52) ∷ []) queued 4096 queued-IsCounted

-- Four bytes leave, five stay.
flush_partly : length (flush ((sock_done 4, 51) ∷ (would_block, 52) ∷ []) queued 4096).sent ≡ 4
unfolding flush queue_frame make_frame apply_mask length_bytes add64 xor_bits
flush_partly = refl

abbrev env : Env
env = record { mask = λ n. some mask; now = λ n. 60 }

server-IsSound : IsSound (new_session false)
server-IsSound = record {
  queue = new_session-IsCounted false;
  fragment = omega arith;
  pongs = omega arith;
  buffer = omega arith;
}

read_messages-Leaves_example :
    Leaves
      (read_messages env false true (sock_read (wire true mask 2 packet) ∷ []) (new_session false))
read_messages-Leaves_example =
    read_messages-Leaves env false true (sock_read (wire true mask 2 packet) ∷ [])
      (new_session false) server-IsSound

server-Waits : Waits (new_session false)
server-Waits = record {
  nothing_kept = refl;
  no_close = refl;
  no_end = refl;
  no_bytes = refl;
  no_fragment = refl;
}

abbrev two_messages : List Message
two_messages = (mask, packet) ∷ (mask, []) ∷ []

abbrev sent : List ℕ
sent = wire true mask 2 packet ++ wire true mask 2 []

abbrev in_two_reads : List (List ℕ)
in_two_reads = take 5 sent ∷ drop 5 sent ∷ []

sent_bytes :
    take 5 sent ++ (drop 5 sent ++ [])
    ≡ pending_bytes (send_all 50 two_messages (new_session true)).0.tx
unfolding send_all send_binary queue_frame make_frame apply_mask length_bytes add64 xor_bits
sent_bytes = refl

sent_chunks : (length (take 5 sent) ≡ 5) × (length (drop 5 sent) ≡ 10)
unfolding apply_mask length_bytes xor_bits
sent_chunks = (refl, refl)

read_messages-send_all_example :
    ((send_all 50 two_messages (new_session true)).1 ≡ none)
    × (messages (read_messages env false true (reads in_two_reads) (new_session false))
        ≡ some (packet ∷ [] ∷ []))
unfolding apply_mask length_bytes xor_bits
read_messages-send_all_example =
    read_messages-send_all env false 50 two_messages in_two_reads (new_session true)
      (new_session false) refl refl refl server-Waits
      ((refl, (packet-IsByte, omega arith)), ((refl, (tt, omega arith)), tt)) (omega arith)
      ((omega arith, omega arith), ((omega arith, omega arith), tt)) sent_bytes
