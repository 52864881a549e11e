-- ===== src/WebSocket/Receive/Found.antt =====
-- The frames that the parser of websocket_read_messages finds, cdn/src/websocket.cpp.
use pacetun.Base.{
  ℕ, ◌+◌, ◌≤◌, ◌<◌, List, Bool, true, false, Option, none, some, ltb, if◌then◌else◌, length, drop,
  length-take, slice, Bool-cases, inl, inr, arith,
}
use pacetun.Flow.{at}
use pacetun.WebSocket.{WsError}
use pacetun.WebSocket.Frame.{
  Head, head_of, apply_mask, Length, short, bad, long, length_field, body, sized, checked, bad_head,
  Parsed, incomplete, rejected, found, parse_frame,
}
use pacetun.WebSocket.Frame.RoundTrip.{length-apply_mask, limit, plain_head}

-- A frame that is found lies in the buffer, and its payload is within the limit.
abbrev pub FitsIn : Bool → List ℕ → Parsed → Type 0
FitsIn auth b (found f) = (0 < f.size) × ((f.size ≤ length b) × (length f.payload ≤ limit auth))
FitsIn auth b incomplete = Unit
FitsIn auth b (rejected e) = Unit

payload_fits :
    (masked : Bool) (mk raw : List ℕ) (k : ℕ)
    → length raw ≤ k
    → length (if masked then apply_mask mk 0 raw else raw) ≤ k
payload_fits true mk raw k h = rw (length-apply_mask mk 0 raw) h
payload_fits false mk raw k h = h

abbrev FromTwo : Length → Type 0
FromTwo (long n pos) = 0 < pos
FromTwo short = Unit
FromTwo bad = Unit

length_field-FromTwo : (len7 : ℕ) (b : List ℕ) → FromTwo (length_field len7 b)
unfolding length_field
length_field-FromTwo len7 b = ground arith

body_fits :
    (auth fin : Bool) (opcode : ℕ) (masked : Bool) (len7 n pos : ℕ) (b : List ℕ)
    → 0 < pos
    → FitsIn auth b (body auth (plain_head fin opcode masked len7) n pos b)
body_fits auth fin opcode masked len7 n pos b h =
    let start = if masked then pos + 4 else pos in
    let raw = slice start n b in
    let mk = slice pos 4 b in
    let size = length-take n (drop start b) in
    let below : 0 < start = ground arith in
    elim (Bool-cases (ltb (length b) start)) [
      | inl few ↦ rw few tt
      | inr enough ↦ elim (Bool-cases (ltb (limit auth) n)) [
        | inl large ↦ rw (enough, large) tt
        | inr fits ↦ elim (Bool-cases (ltb (length b) (start + n))) [
          | inl part ↦ rw (enough, fits, part) tt
          | inr whole ↦
              let short_raw : length raw ≤ limit auth = ground (arith, size) in
              rw (enough, fits, whole)
                (omega arith, (ground arith, payload_fits masked mk raw (limit auth) short_raw))
        ]
      ]
    ]

sized-FitsIn :
    (auth : Bool) (h : Head) (b : List ℕ) (l : Length)
    → FromTwo l
    → FitsIn auth b (sized auth h b l)
sized-FitsIn auth h b short k = tt
sized-FitsIn auth h b bad k = tt
sized-FitsIn auth h b (long n pos) k = body_fits auth h.fin h.opcode h.masked h.len7 n pos b k

checked-FitsIn :
    (auth : Bool) (h : Head) (b : List ℕ) (e : Option WsError) → FitsIn auth b (checked auth h b e)
checked-FitsIn auth h b (some e) = tt
checked-FitsIn auth h b none =
    sized-FitsIn auth h b (length_field h.len7 b) (length_field-FromTwo h.len7 b)

pub parse_frame-FitsIn :
    (client auth : Bool) (b : List ℕ) → FitsIn auth b (parse_frame client auth b)
unfolding parse_frame
parse_frame-FitsIn client auth b = elim (Bool-cases (ltb (length b) 2)) [
  | inl few ↦ rw few tt
  | inr two ↦
      rw two (checked-FitsIn auth (head_of (at b 0) (at b 1)) b (bad_head client (at b 0) (at b 1)))
]
