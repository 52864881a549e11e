-- ===== src/WebSocket/Send/Bytes.antt =====
-- The bytes in the transmit queue of cdn/src/websocket.cpp, their count, and those on the socket.
use mathlib.Core.List.{append_assoc}
use pacetun.Base.{
  ℕ, zero, suc, ◌+◌, ◌-◌, ◌≤◌, ◌<◌, ◌≡◌, refl, sym, ap, subst, ◌∙◌, List, [], ◌∷◌, ◌++◌, Bool, true,
  false, ◌||◌, Option, none, some, ltb, leb, ◌==◌, length, drop, take, min, length-append,
  length-drop, length-take, take-append-drop, drop-add, sub64, add64_lem, sub64_lem, All,
  All-append, Bool-cases, inl, inr, arith,
}
use pacetun.WebSocket.{Result, ok, err, TxFrame, Session, max_tx_bytes}
use pacetun.WebSocket.Frame.{make_frame, length_bytes}
use pacetun.WebSocket.Send.{
  enqueue_bytes, queue_frame, account, Io, Written, wrote, again, failed, io_write, Flushed,
  progress, drop_sent, answered, flush_front, flush,
}

abbrev pub unsent : TxFrame → List ℕ
unsent f = drop f.offset f.bytes

-- All that the socket is still to get, in order.
abbrev pub pending_bytes : List TxFrame → List ℕ
pending_bytes [] = []
pending_bytes (f ∷ fs) = unsent f ++ pending_bytes fs

abbrev pub IsOpen : TxFrame → Type 0
IsOpen f = f.offset < length f.bytes

pub record IsCounted (w : Session) : Type 0 where
  pub counted : w.tx_queued_bytes ≡ length (pending_bytes w.tx)
  pub within : w.tx_queued_bytes ≤ max_tx_bytes
  pub started : All IsOpen w.tx

pub pending_bytes-append :
    (fs gs : List TxFrame) → pending_bytes (fs ++ gs) ≡ pending_bytes fs ++ pending_bytes gs
pending_bytes-append [] gs = refl
pending_bytes-append (f ∷ fs) gs =
    ap (◌++◌ (unsent f)) (pending_bytes-append fs gs)
    ∙ sym (append_assoc (unsent f) (pending_bytes fs) (pending_bytes gs))

enqueue_bytes-IsCounted :
    (w : Session) (now opcode : ℕ) (p : List ℕ) (r : Result (List ℕ))
    → ((f : List ℕ) → r ≡ ok f → 0 < length f)
    → IsCounted w
    → IsCounted (enqueue_bytes w now opcode p r).0
enqueue_bytes-IsCounted w now opcode p (err e) h v = v
enqueue_bytes-IsCounted w now opcode p (ok f) h v =
    elim (Bool-cases
      (ltb max_tx_bytes (length f) || ltb (max_tx_bytes - length f) w.tx_queued_bytes)) [
        | inl full ↦ rw full v
        | inr room ↦
            let some_bytes = h f refl in
            let g : TxFrame = record {
              bytes = f;
              offset = 0;
              payload_bytes = length p;
              opcode = opcode;
            } in
            let fits : w.tx_queued_bytes + length f ≤ max_tx_bytes = ground arith in
            let sum = add64_lem w.tx_queued_bytes (length f) (omega arith) in
            let more : length (pending_bytes (w.tx ++ g ∷ []))
                ≡ length (pending_bytes w.tx) + length f =
              ap length (pending_bytes-append w.tx (g ∷ []))
              ∙ length-append (pending_bytes w.tx) (f ++ [])
              ∙ omega (arith, length-append f []) in
            rw room (record {
              counted = omega (arith, sum, more, v.counted);
              within = omega (arith, sum, fits);
              started = All-append IsOpen w.tx (g ∷ []) v.started (some_bytes, tt);
            })
      ]

frame_has_bytes :
    (client : Bool) (mask : Option (List ℕ)) (opcode : ℕ) (p f : List ℕ)
    → make_frame client mask opcode p ≡ ok f
    → 0 < length f
unfolding make_frame length_bytes
frame_has_bytes false mask opcode p [] h = absurd (ground arith)
frame_has_bytes true none opcode p [] h = absurd (ground arith)
frame_has_bytes true (some mk) opcode p [] h = absurd (ground arith)
frame_has_bytes client mask opcode p (b ∷ f) h = omega arith

pub queue_frame-IsCounted :
    (w : Session) (mask : Option (List ℕ)) (now opcode : ℕ) (p : List ℕ)
    → IsCounted w
    → IsCounted (queue_frame w mask now opcode p).0
unfolding queue_frame
queue_frame-IsCounted w mask now opcode p v =
    enqueue_bytes-IsCounted w now opcode p (make_frame w.client mask opcode p)
      (λ f e. frame_has_bytes w.client mask opcode p f e) v

account_tx :
    (w : Session) (f : TxFrame)
    → ((account w f).tx ≡ w.tx) × ((account w f).tx_queued_bytes ≡ w.tx_queued_bytes)
unfolding account
account_tx w f = ground arith

io_write_tx :
    (w : Session) (io : Io)
    → ((io_write w io).0.tx ≡ w.tx) × ((io_write w io).0.tx_queued_bytes ≡ w.tx_queued_bytes)
unfolding io_write
io_write_tx w io = ground arith

drop_sent_open :
    (fs : List TxFrame) (w : Session) → All IsOpen fs → drop_sent fs w ≡ record w { tx = fs }
unfolding drop_sent
drop_sent_open [] w h = refl
drop_sent_open (f ∷ fs) w h =
    let e : leb (length f.bytes) f.offset ≡ false = ground (arith, h.0) in rw e refl

pub take_all : (n : ℕ) (xs : List ℕ) → length xs ≤ n → take n xs ≡ xs
take_all zero [] h = refl
take_all (suc n) [] h = refl
take_all zero (x ∷ xs) h = absurd (omega arith)
take_all (suc n) (x ∷ xs) h = ap (◌∷◌ x) (take_all n xs (omega arith))

-- Part of the front is on the socket.
module _ (w : Session) (f : TxFrame) (fs : List TxFrame) (n now : ℕ) (h : n ≤ length (unsent f))
    (e : w.tx ≡ f ∷ fs) (v : IsCounted w) where
  queue_size : w.tx_queued_bytes ≡ length (unsent f) + length (pending_bytes fs)
  queue_size =
      v.counted
      ∙ ap (λ fs. length (pending_bytes fs)) e
      ∙ length-append (unsent f) (pending_bytes fs)

  after_size : sub64 w.tx_queued_bytes n ≡ w.tx_queued_bytes - n
  after_size = sub64_lem w.tx_queued_bytes n (omega (arith, queue_size)) (omega (arith, v.within))

  opened : All IsOpen (f ∷ fs)
  opened = subst (All IsOpen) e v.started

  progress-IsCounted :
      IsCounted (progress w f fs n now)
      × (pending_bytes w.tx ≡ take n (unsent f) ++ pending_bytes (progress w f fs n now).tx)
  progress-IsCounted = elim (Bool-cases (f.offset + n == length f.bytes)) [
    | inl done ↦
        let a = account_tx (record w { tx_queued_bytes = sub64 w.tx_queued_bytes n }) f in
        let u = length-drop f.offset f.bytes in
        let all_sent : length (unsent f) ≡ n = ground (arith, u) in
        let full : take n (unsent f) ≡ unsent f = take_all n (unsent f) (ground arith) in
        rw done (
          record {
            counted = a.1 ∙ omega (arith, after_size, queue_size, all_sent);
            within = omega (arith, a.1, after_size, v.within);
            started = opened.1;
          },
          ap pending_bytes e ∙ ap (λ x. x ++ pending_bytes fs) (sym full),
        )
    | inr part ↦
        let u = length-drop f.offset f.bytes in
        let g = record f { offset = f.offset + n } in
        let split : unsent f ≡ take n (unsent f) ++ unsent g =
          sym (take-append-drop n (unsent f))
          ∙ ap (λ x. take n (unsent f) ++ x) (sym (drop-add f.offset n f.bytes)) in
        let size = length-drop (f.offset + n) f.bytes in
        rw part (
          record {
            counted = omega (
              arith,
              after_size,
              queue_size,
              u,
              size,
              length-append (unsent g) (pending_bytes fs),
            );
            within = omega (arith, after_size, v.within);
            started = (ground arith, opened.1);
          },
          ap pending_bytes e
              ∙ ap (λ x. x ++ pending_bytes fs) split
              ∙ append_assoc (take n (unsent f)) (unsent g) (pending_bytes fs),
        )
  ]

-- What is on the socket, and what is left.
abbrev pub Moved : Session → Flushed → Type 0
Moved w r = IsCounted r.session × (pending_bytes w.tx ≡ r.sent ++ pending_bytes r.session.tx)

abbrev pub MovedWithin : Session → Flushed → ℕ → Type 0
MovedWithin w r budget = Moved w r × (length r.sent ≤ budget)

pub IsCounted-same :
    (w v : Session)
    → v.tx ≡ w.tx
    → v.tx_queued_bytes ≡ w.tx_queued_bytes
    → IsCounted w
    → IsCounted v
IsCounted-same w v e q h = record {
  counted = q ∙ h.counted ∙ ap (λ fs. length (pending_bytes fs)) (sym e);
  within = omega (arith, q, h.within);
  started = subst (All IsOpen) (sym e) h.started;
}

module _ (go : Session → ℕ → Flushed)
    (ih : (v : Session) (budget : ℕ) → IsCounted v → MovedWithin v (go v budget) budget) where
  answered-Moved :
      (w : Session) (f : TxFrame) (fs : List TxFrame) (budget now : ℕ) (answer : Written)
      → w.tx ≡ f ∷ fs
      → IsCounted w
      → MovedWithin w (answered go w f fs budget now answer) budget
  answered-Moved w f fs budget now (wrote n) e v =
      let m = min n (min (length f.bytes - f.offset) budget) in
      let u = length-drop f.offset f.bytes in
      let fits : m ≤ length (unsent f) = omega (arith, u) in
      let (valid, moved) = progress-IsCounted w f fs m now fits e v in
      let w' = progress w f fs m now in
      let ((valid', moved'), bound) = ih w' (budget - m) valid in
      let piece = length-take m (unsent f) in
      let r = go w' (budget - m) in
      elim (Bool-cases (m == 0)) [
        | inl none_taken ↦ rw none_taken ((v, refl), omega arith)
        | inr some_taken ↦ rw some_taken (
          (
            valid',
            moved
                ∙ ap (λ x. take m (unsent f) ++ x) moved'
                ∙ sym (append_assoc (take m (unsent f)) r.sent _),
          ),
          omega (arith, length-append (take m (unsent f)) r.sent, piece, bound, fits),
        )
      ]
  answered-Moved w f fs budget now again e v = ((v, refl), omega arith)
  answered-Moved w f fs budget now failed e v = ((v, refl), omega arith)

  flush_front-Moved :
      (w : Session) (fs : List TxFrame) (budget now : ℕ) (io : Io)
      → w.tx ≡ fs
      → IsCounted w
      → MovedWithin w (flush_front go w fs budget now io) budget
  flush_front-Moved w [] budget now io e v = ((v, refl), omega arith)
  flush_front-Moved w (f ∷ fs) budget now io e v =
      let (same, count) = io_write_tx w io in
      let w' = (io_write w io).0 in
      let (moved, bound) =
        answered-Moved w' f fs budget now (io_write w io).1 (same ∙ e)
          (IsCounted-same w w' same count v) in
      ((moved.0, ap pending_bytes (sym same) ∙ moved.1), bound)

-- If the transmit counter of a session is right and every queued frame has bytes left, then for
-- every sequence of answers of the socket, the bytes queued before websocket_flush are those that
-- it sent followed by those still queued, the counter is right after it, and it sent no more than
-- its budget.
pub flush-Moved :
    (ios : List (Io × ℕ)) (w : Session) (budget : ℕ)
    → IsCounted w
    → MovedWithin w (flush ios w budget) budget
unfolding flush
flush-Moved [] w budget v = ((v, refl), omega arith)
flush-Moved ((io, now) ∷ ios) w budget v =
    let go = λ (v : Session) (b : ℕ). flush ios v b in
    let same : drop_sent w.tx w ≡ w = drop_sent_open w.tx w v.started in
    elim (Bool-cases (budget == 0)) [
      | inl spent ↦ rw spent ((v, refl), omega arith)
      | inr left ↦
          let front =
            flush_front-Moved go (λ u b k. flush-Moved ios u b k) w w.tx budget now io refl v in
          rw left (
            subst (λ u. MovedWithin w (flush_front go u u.tx budget now io) budget) (sym same)
              front)
    ]
