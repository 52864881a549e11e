-- ===== src/WebSocket/Frame/RoundTrip.antt =====
-- make_frame against the frame parser of websocket_read_messages, cdn/src/websocket.cpp.
use pacetun.Base.{
  ℕ, suc, ◌+◌, ◌*◌, ◌/◌, ◌%◌, ◌^◌, ◌≤◌, ◌<◌, ◌≡◌, refl, ap, ◌∙◌, List, [], ◌∷◌, ◌++◌, Bool, true,
  false, not, ◌&&◌, none, some, ltb, leb, ◌==◌, if◌then◌else◌, length, drop, drop-add, take, get_or,
  be_bytes, be_value-be_bytes, length-be_bytes, xor_bits-xor_bits, All, IsByte, Bool-cases, inl,
  inr, arith, length-append, take-length,
}
use mathlib.Core.List.{append_assoc}
use pacetun.Flow.{at}
use pacetun.Record.RoundTrip.{take_exact, drop_exact}
use pacetun.WebSocket.{ok, max_message_bytes}
use pacetun.WebSocket.Frame.{
  is_control, apply_mask, length_bytes, make_frame, Parsed, found, Head, head_of, bad_head, long,
  length_field, body, parse_frame, sized,
}

apply_mask-apply_mask :
    (mk : List ℕ) (i : ℕ) (p : List ℕ) → All IsByte p → apply_mask mk i (apply_mask mk i p) ≡ p
unfolding apply_mask
apply_mask-apply_mask mk i [] h = refl
apply_mask-apply_mask mk i (b ∷ p) h =
    rw (xor_bits-xor_bits 8 b (at mk (i % 4)) h.0, apply_mask-apply_mask mk (i + 1) p h.1) refl

pub length-apply_mask : (mk : List ℕ) (i : ℕ) (p : List ℕ) → length (apply_mask mk i p) ≡ length p
unfolding apply_mask
length-apply_mask mk i [] = refl
length-apply_mask mk i (b ∷ p) = ap suc (length-apply_mask mk (i + 1) p)

abbrev pub limit : Bool → ℕ
limit authenticated = if authenticated then max_message_bytes else 1024

-- The first two bytes.
abbrev pub mask_bit : Bool → ℕ
mask_bit masked = if masked then 128 else 0

head_bytes :
    (masked : Bool) (opcode len7 : ℕ)
    → opcode < 16
    → len7 < 128
    → head_of (128 + opcode) (mask_bit masked + len7)
      ≡ record { fin = true; opcode = opcode; masked = masked; len7 = len7 }
head_bytes true opcode len7 h k = ground arith
head_bytes false opcode len7 h k = ground arith

pub bad_head-none :
    (client : Bool) (opcode len7 : ℕ)
    → opcode < 16
    → len7 < 128
    → (is_control opcode ≡ true → len7 < 126)
    → bad_head client (128 + opcode) (mask_bit (not client) + len7) ≡ none
unfolding bad_head
bad_head-none true opcode len7 h k c = ground (arith, c)
bad_head-none false opcode len7 h k c = ground (arith, c)

-- The payload behind a head of `pos` bytes.
abbrev pub plain_head : Bool → ℕ → Bool → ℕ → Head
plain_head fin opcode masked len7 = record {
  fin = fin;
  opcode = opcode;
  masked = masked;
  len7 = len7;
}

module _ (auth : Bool) (opcode len7 pos : ℕ) (b p rest : List ℕ) (m : length p ≤ limit auth) where
  in_limit : ltb (limit auth) (length p) ≡ false
  in_limit = ground arith

  body_unmasked :
      drop pos b ≡ p ++ rest
      → length b ≡ pos + length (p ++ rest)
      → body auth (plain_head true opcode false len7) (length p) pos b
        ≡ found (record { fin = true; opcode = opcode; payload = p; size = pos + length p })
  body_unmasked d l =
      let total = length-append p rest in
      let t1 : ltb (length b) pos ≡ false = ground arith in
      let t3 : ltb (length b) (pos + length p) ≡ false = ground (arith, total) in
      rw (t1, in_limit, t3, d, take-length p rest) refl

  body_masked :
      (mk : List ℕ)
      → length mk ≡ 4
      → All IsByte p
      → drop pos b ≡ mk ++ (apply_mask mk 0 p ++ rest)
      → length b ≡ pos + 4 + length (p ++ rest)
      → body auth (plain_head true opcode true len7) (length p) pos b
        ≡ found (record { fin = true; opcode = opcode; payload = p; size = pos + 4 + length p })
  body_masked mk four bytes d l =
      let total = length-append p rest in
      let q = apply_mask mk 0 p in
      let t1 : ltb (length b) (pos + 4) ≡ false = ground arith in
      let t3 : ltb (length b) (pos + 4 + length p) ≡ false = ground (arith, total) in
      let key : take 4 (drop pos b) ≡ mk = ap (take 4) d ∙ take_exact 4 mk (q ++ rest) four in
      let behind : drop (pos + 4) b ≡ q ++ rest =
        drop-add pos 4 b ∙ ap (drop 4) d ∙ drop_exact 4 mk (q ++ rest) four in
      let raw : take (length p) (drop (pos + 4) b) ≡ q =
        ap (take (length p)) behind ∙ take_exact (length p) q rest (length-apply_mask mk 0 p) in
      rw (t1, in_limit, t3, key, raw, apply_mask-apply_mask mk 0 p bytes) refl

-- The parser at a frame whose first two bytes are in order.
pub parse_frame-plain :
    (masked auth : Bool) (opcode len7 : ℕ) (tail : List ℕ)
    → opcode < 16
    → len7 < 128
    → (is_control opcode ≡ true → len7 < 126)
    → let b = (128 + opcode) ∷ (mask_bit masked + len7) ∷ tail in
      parse_frame (not masked) auth b
      ≡ sized auth (plain_head true opcode masked len7) b (length_field len7 b)
unfolding parse_frame
parse_frame-plain true auth opcode len7 tail h k c =
    let t : ltb (suc (suc (length tail))) 2 ≡ false = ground arith in
    let low : (128 + len7) % 128 ≡ len7 = omega arith in
    rw (t, bad_head-none false opcode len7 h k c, head_bytes true opcode len7 h k, low) refl
parse_frame-plain false auth opcode len7 tail h k c =
    let t : ltb (suc (suc (length tail))) 2 ≡ false = ground arith in
    let low : (0 + len7) % 128 ≡ len7 = omega arith in
    rw (t, bad_head-none true opcode len7 h k c, head_bytes false opcode len7 h k, low) refl

-- How a length is written: the seven bits and the bytes behind them.
pub seven : ℕ → ℕ
seven n = if ltb n 126 then n else if leb n 65535 then 126 else 127

abbrev pub more_bytes : ℕ → List ℕ
more_bytes n = if ltb n 126 then [] else if leb n 65535 then be_bytes 2 n else be_bytes 8 n

abbrev head_size : ℕ → ℕ
head_size n = suc (suc (length (more_bytes n)))

length_bytes-split : (mbit n : ℕ) → length_bytes mbit n ≡ (mbit + seven n) ∷ more_bytes n
unfolding length_bytes seven
length_bytes-split mbit n = elim (Bool-cases (ltb n 126)) [
  | inl tiny ↦ rw tiny refl
  | inr more ↦ elim (Bool-cases (leb n 65535)) [
    | inl medium ↦ rw (more, medium) refl
    | inr large ↦ rw (more, large) refl
  ]
]

pub seven-lt : (n : ℕ) → seven n < 128
unfolding seven
seven-lt n = ground arith

length_field_tiny : (n : ℕ) (b : List ℕ) → n < 126 → length_field n b ≡ long n 2
unfolding length_field
length_field_tiny n b k =
    let a : (n == 126) ≡ false = ground arith in
    let a' : (n == 127) ≡ false = ground arith in rw (a, a') refl

length_field-two :
    (b0 b1 n : ℕ) (z : List ℕ)
    → n < 65536
    → length_field 126 (b0 ∷ b1 ∷ (be_bytes 2 n ++ z)) ≡ long n 4
unfolding length_field be_bytes
length_field-two b0 b1 n z k =
    let t : ltb (suc (suc (suc (suc (length z))))) 4 ≡ false = ground arith in
    let value : n / 256 ^ 1 % 256 * 256 + n / 256 ^ 0 % 256 ≡ n = omega arith in rw (t, value) refl

first_byte :
    (n : ℕ) (z : List ℕ) → n ≤ max_message_bytes → leb 128 (get_or (be_bytes 8 n ++ z) 0 0) ≡ false
unfolding be_bytes
first_byte n z k = let top : n / 256 ^ 7 % 256 ≡ 0 = omega arith in rw top refl

length_field-eight :
    (b0 b1 n : ℕ) (z : List ℕ)
    → n ≤ max_message_bytes
    → length_field 127 (b0 ∷ b1 ∷ (be_bytes 8 n ++ z)) ≡ long n 10
unfolding length_field
length_field-eight b0 b1 n z k =
    let total = length-append (be_bytes 8 n) z in
    let eight = length-be_bytes 8 n in
    let t : ltb (suc (suc (length (be_bytes 8 n ++ z)))) 10 ≡ false =
      ground (arith, total, eight) in
    rw (t, first_byte n z k, take_exact 8 (be_bytes 8 n) z eight, be_value-be_bytes n (omega arith))
      refl

length_field-more :
    (b0 b1 n : ℕ) (z : List ℕ)
    → n ≤ max_message_bytes
    → length_field (seven n) (b0 ∷ b1 ∷ (more_bytes n ++ z)) ≡ long n (head_size n)
unfolding seven
length_field-more b0 b1 n z k = elim (Bool-cases (ltb n 126)) [
  | inl tiny ↦ rw tiny (length_field_tiny n (b0 ∷ b1 ∷ z) (ground arith))
  | inr more ↦ elim (Bool-cases (leb n 65535)) [
    | inl medium ↦
        rw (more, medium, length-be_bytes 2 n) (length_field-two b0 b1 n z (ground arith))
    | inr large ↦ rw (more, large, length-be_bytes 8 n) (length_field-eight b0 b1 n z k)
  ]
]

-- The bytes of a frame.
abbrev pub wire : Bool → List ℕ → ℕ → List ℕ → List ℕ
wire client mk opcode p =
    (128 + opcode)
    ∷ (length_bytes (mask_bit client) (length p) ++ (if client then mk ++ apply_mask mk 0 p else p))

pub make_frame-ok :
    (client : Bool) (mk : List ℕ) (opcode : ℕ) (p : List ℕ)
    → opcode < 16
    → length p ≤ max_message_bytes
    → (is_control opcode ≡ true → length p < 126)
    → make_frame client (some mk) opcode p ≡ ok (wire client mk opcode p)
unfolding make_frame
make_frame-ok true mk opcode p h k c =
    let low : opcode % 128 ≡ opcode = omega arith in
    let fits : (is_control opcode && ltb 125 (length p)) ≡ false = ground (arith, c) in
    let room : (not (is_control opcode) && ltb max_message_bytes (length p)) ≡ false =
      ground arith in
    rw (fits, room, low) refl
make_frame-ok false mk opcode p h k c =
    let low : opcode % 128 ≡ opcode = omega arith in
    let fits : (is_control opcode && ltb 125 (length p)) ≡ false = ground (arith, c) in
    let room : (not (is_control opcode) && ltb max_message_bytes (length p)) ≡ false =
      ground arith in
    rw (fits, room, low) refl

-- The frame behind its first bytes.
abbrev pub framed : Bool → ℕ → ℕ → List ℕ → List ℕ
framed masked opcode n tail = (128 + opcode) ∷ (mask_bit masked + seven n) ∷ (more_bytes n ++ tail)

abbrev sent_payload : Bool → List ℕ → List ℕ → List ℕ
sent_payload masked mk p = if masked then mk ++ apply_mask mk 0 p else p

wire-framed :
    (masked : Bool) (mk : List ℕ) (opcode : ℕ) (p : List ℕ)
    → wire masked mk opcode p ≡ framed masked opcode (length p) (sent_payload masked mk p)
wire-framed masked mk opcode p =
    ap (λ l. (128 + opcode) ∷ (l ++ sent_payload masked mk p))
      (length_bytes-split (mask_bit masked) (length p))

pub wire_before :
    (masked : Bool) (mk : List ℕ) (opcode : ℕ) (p rest : List ℕ)
    → wire masked mk opcode p ++ rest
      ≡ framed masked opcode (length p) (sent_payload masked mk p ++ rest)
wire_before masked mk opcode p rest =
    ap (λ l. l ++ rest) (wire-framed masked mk opcode p)
    ∙ ap (λ l. (128 + opcode) ∷ (mask_bit masked + seven (length p)) ∷ l)
        (append_assoc (more_bytes (length p)) (sent_payload masked mk p) rest)

pub seven_control : (n : ℕ) → n < 126 → seven n < 126
unfolding seven
seven_control n k = ground arith

parse_frame-framed :
    (masked auth : Bool) (opcode n : ℕ) (tail : List ℕ)
    → opcode < 16
    → n ≤ max_message_bytes
    → (is_control opcode ≡ true → n < 126)
    → parse_frame (not masked) auth (framed masked opcode n tail)
      ≡ body auth
          (plain_head true opcode masked (seven n))
          n
          (head_size n)
          (framed masked opcode n tail)
parse_frame-framed masked auth opcode n tail h k c =
    parse_frame-plain masked auth opcode (seven n) (more_bytes n ++ tail) h (seven-lt n)
      (λ e. seven_control n (c e))
    ∙ ap (sized auth (plain_head true opcode masked (seven n)) (framed masked opcode n tail))
        (length_field-more (128 + opcode) (mask_bit masked + seven n) n tail k)

drop-framed :
    (masked : Bool) (opcode n : ℕ) (tail : List ℕ)
    → drop (head_size n) (framed masked opcode n tail) ≡ tail
drop-framed masked opcode n tail = drop_exact (length (more_bytes n)) (more_bytes n) tail refl

length-framed :
    (masked : Bool) (opcode n : ℕ) (tail : List ℕ)
    → length (framed masked opcode n tail) ≡ head_size n + length tail
length-framed masked opcode n tail =
    let total = length-append (more_bytes n) tail in omega (arith, total)

abbrev sent : ℕ → List ℕ → ℕ → Parsed
sent opcode p size = found (record { fin = true; opcode = opcode; payload = p; size = size })

pub parse_frame-wire :
    (client auth : Bool) (mk : List ℕ) (opcode : ℕ) (p rest : List ℕ)
    → length mk ≡ 4
    → All IsByte p
    → opcode < 16
    → length p ≤ limit auth
    → (is_control opcode ≡ true → length p < 126)
    → parse_frame (not client) auth (wire client mk opcode p ++ rest)
      ≡ sent opcode p (length (wire client mk opcode p))
parse_frame-wire true auth mk opcode p rest four bytes h k c =
    let n = length p in
    let q = apply_mask mk 0 p in
    let most : n ≤ max_message_bytes = ground arith in
    let tail = mk ++ (q ++ rest) in
    let b = framed true opcode n tail in
    let front =
      wire_before true mk opcode p rest ∙ ap (framed true opcode n) (append_assoc mk q rest) in
    let total = length-append mk q in
    let behind = length-append mk (q ++ rest) in
    let same = length-apply_mask mk 0 p in
    let more = length-append q rest in
    let plain = length-append p rest in
    let all = length-framed true opcode n tail in
    let size : length (wire true mk opcode p) ≡ head_size n + 4 + n =
      ap length (wire-framed true mk opcode p)
      ∙ length-framed true opcode n (mk ++ q)
      ∙ omega (arith, total, same) in
    rw (front, size)
      (parse_frame-framed true auth opcode n tail h most c
        ∙ body_masked auth opcode (seven n) (head_size n) b p rest k mk four bytes
            (drop-framed true opcode n tail) (omega (arith, all, behind, more, plain, same)))
parse_frame-wire false auth mk opcode p rest four bytes h k c =
    let n = length p in
    let most : n ≤ max_message_bytes = ground arith in
    let b = framed false opcode n (p ++ rest) in
    let size : length (wire false mk opcode p) ≡ head_size n + n =
      ap length (wire-framed false mk opcode p) ∙ length-framed false opcode n p in
    rw (wire_before false mk opcode p rest, size)
      (parse_frame-framed false auth opcode n (p ++ rest) h most c
        ∙ body_unmasked auth opcode (seven n) (head_size n) b p rest k
            (drop-framed false opcode n (p ++ rest)) (length-framed false opcode n (p ++ rest)))

-- If the payload is of bytes and within the limit of the reader, the opcode has 4 bits, the mask
-- has four bytes, and a control frame has at most 125 bytes, then make_frame makes a frame, and
-- the parser of the other role finds in its bytes, whatever follows them, the opcode, the payload
-- and the size.
pub parse_frame-make_frame :
    (client auth : Bool) (mk : List ℕ) (opcode : ℕ) (p rest : List ℕ)
    → length mk ≡ 4
    → All IsByte p
    → opcode < 16
    → length p ≤ limit auth
    → (is_control opcode ≡ true → length p < 126)
    → (make_frame client (some mk) opcode p ≡ ok (wire client mk opcode p))
      × (parse_frame (not client) auth (wire client mk opcode p ++ rest)
          ≡ found (record {
            fin = true;
            opcode = opcode;
            payload = p;
            size = length (wire client mk opcode p);
          }))
parse_frame-make_frame client auth mk opcode p rest four bytes h k c = (
  make_frame-ok client mk opcode p h (ground arith) c,
  parse_frame-wire client auth mk opcode p rest four bytes h k c,
)
