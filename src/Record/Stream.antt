-- ===== src/Record/Stream.antt =====
-- feed_aead of cdn/src/record.cpp as a function on a stream of bytes.
mod Prefix
pub mod Loop
use mathlib.Core.List.{append_assoc}
use pacetun.Base.{
  ℕ, zero, suc, ◌+◌, ◌≤◌, ◌<◌, ◌≡◌, ◌≢◌, refl, sym, subst, ap, ◌∙◌, List, [], ◌∷◌, ◌++◌, Bool, true,
  false, Option, none, some, if◌then◌else◌, length, length-append, Bool-cases, inl, inr, arith, ltb,
}
use pacetun.Record.{Crypto, Wire, RecordError, buffer_limit}
use pacetun.Record.Decode.{
  Decoder, Delivered, Turn, wait, fail, deliver, Turn-cases, decode_one, Status, returned, stuck,
  Fed, with_record, go_on, feed_loop, feed_aead,
}
use Prefix.{extend, extend_turn, decode_one-extend}
use Loop.{
  deliver_shorter, deliver_limit, fail_keeps, loop, loop-step, feed_loop-loop, feed_loop-ne-stuck,
}

abbrev pub with_records : List Delivered → Fed → Fed
with_records rs f = record f { records = rs ++ f.records }

-- What more bytes make of a run: one that waited goes on, one that failed keeps its answer.
abbrev resume : (Decoder → Fed) → List ℕ → Fed → Fed
resume go y f = elim f.status [
  | returned none ↦ with_records f.records (go (extend y f.decoder))
  | _ ↦ record f { decoder = extend y f.decoder }
]

resume-with_record :
    (go : Decoder → Fed) (y : List ℕ) (r : Delivered) (rs : List Delivered) (d : Decoder)
    (s : Status)
    → resume go y (with_record r (record { decoder = d; records = rs; status = s }))
      ≡ with_record r (resume go y (record { decoder = d; records = rs; status = s }))
resume-with_record go y r rs d (returned none) = refl
resume-with_record go y r rs d (returned (some e)) = refl
resume-with_record go y r rs d stuck = refl

resume_cases :
    (go : Decoder → Fed) (y : List ℕ) (rs : List Delivered) (d : Decoder) (s : Status)
    → let f : Fed = record { decoder = d; records = rs; status = s } in
      (s ≡ returned none → resume go y f ≡ with_records rs (go (extend y d)))
      × (s ≢ returned none → ((resume go y f).records ≡ rs) × ((resume go y f).status ≡ s))
resume_cases go y rs d (returned none) = (λ e. refl, λ n. absurd (n refl))
resume_cases go y rs d (returned (some x)) = (λ e. cc, λ n. (refl, refl))
resume_cases go y rs d stuck = (λ e. cc, λ n. (refl, refl))

-- The buffer is no larger than its limit.
abbrev pub WithinLimit : Decoder → Type 0
WithinLimit d = length d.buffer ≤ d.max_buffer_bytes

module _ (c : Crypto) (w : Wire) where
  loop_turn : (d : Decoder) (t : Turn) → decode_one c w d ≡ t → loop c w d ≡ go_on (loop c w) d t
  loop_turn d t e = loop-step c w d ∙ ap (go_on (loop c w) d) e

  extend_turns :
      (d : Decoder) (y : List ℕ) (t : Turn)
      → decode_one c w d ≡ t
      → t ≢ wait
      → loop c w (extend y d) ≡ go_on (loop c w) (extend y d) (extend_turn y t)
  extend_turns d y t e n =
      loop_turn (extend y d) (extend_turn y t)
        (decode_one-extend c w d y (rw e n) ∙ ap (extend_turn y) e)

  loop-extend :
      (n : ℕ) (d : Decoder) (y : List ℕ)
      → length d.buffer < n
      → loop c w (extend y d) ≡ resume (loop c w) y (loop c w d)
  loop-extend zero d y h = absurd (omega arith)
  loop-extend (suc n) d y h =
      let P = λ (f : Fed). loop c w (extend y d) ≡ resume (loop c w) y f in
      elim (Turn-cases (decode_one c w d)) [
        | inl e ↦ subst P (sym (loop_turn d wait e)) refl
        | inr (inl (d', x, e)) ↦
            subst P (sym (loop_turn d (fail d' x) e)) (extend_turns d y (fail d' x) e (λ q. cc))
        | inr (inr (d', r, e)) ↦
            let s = deliver_shorter c w d d' r e in
            let f = loop c w d' in
            subst P (sym (loop_turn d (deliver d' r) e)) (
              extend_turns d y (deliver d' r) e (λ q. cc)
              ∙ ap (with_record r) (loop-extend n d' y (omega arith))
              ∙ sym (resume-with_record (loop c w) y r f.records f.decoder f.status))
      ]

  feed-loop :
      (d : Decoder) (x : List ℕ)
      → length d.buffer + length x ≤ d.max_buffer_bytes
      → feed_aead c w d x ≡ loop c w (extend x d)
  unfolding feed_aead
  feed-loop d x h = elim (Bool-cases (ltb d.max_buffer_bytes (length (d.buffer ++ x)))) [
    | inl over ↦ absurd (ground (arith, length-append d.buffer x))
    | inr room ↦ rw room refl
  ]

  -- Feed ends with an answer of the program for every decoder and all bytes: the fuel of its loop
  -- is enough.
  pub feed_aead-ne-stuck : (d : Decoder) (x : List ℕ) → (feed_aead c w d x).status ≢ stuck
  unfolding feed_aead
  feed_aead-ne-stuck d x =
      let b = d.buffer ++ x in
      elim (Bool-cases (ltb d.max_buffer_bytes (length b))) [
        | inl over ↦ rw over (λ q. cc)
        | inr room ↦
            rw room
              (feed_loop-ne-stuck c w (suc (length b)) (record d { buffer = b }) (omega arith))
      ]

  loop-limit :
      (n : ℕ) (d : Decoder)
      → length d.buffer < n
      → let e = (loop c w d).decoder in
        (e.max_buffer_bytes ≡ d.max_buffer_bytes) × (length e.buffer ≤ length d.buffer)
  loop-limit zero d h = absurd (omega arith)
  loop-limit (suc n) d h =
      let P = λ (f : Fed).
        (f.decoder.max_buffer_bytes ≡ d.max_buffer_bytes)
        × (length f.decoder.buffer ≤ length d.buffer) in
      elim (Turn-cases (decode_one c w d)) [
        | inl e ↦ subst P (sym (loop_turn d wait e)) (refl, omega arith)
        | inr (inl (d', x, e)) ↦
            let (m, l) = fail_keeps c w d d' x e in
            subst P (sym (loop_turn d (fail d' x) e)) (m, omega (arith, ap length l))
        | inr (inr (d', r, e)) ↦
            let s = deliver_shorter c w d d' r e in
            let (m, l) = loop-limit n d' (omega arith) in
            subst P (sym (loop_turn d (deliver d' r) e))
              (m ∙ deliver_limit c w d d' r e, omega arith)
      ]

  -- Whatever arrives, a decoder whose buffer is within its limit buffers no more than its limit
  -- after feed, and the limit stays.
  pub feed-WithinLimit :
      (d : Decoder) (x : List ℕ)
      → WithinLimit d
      → let e = (feed_aead c w d x).decoder in
        WithinLimit e × (e.max_buffer_bytes ≡ d.max_buffer_bytes)
  unfolding feed_aead
  feed-WithinLimit d x v =
      let b = d.buffer ++ x in
      elim (Bool-cases (ltb d.max_buffer_bytes (length b))) [
        | inl over ↦ rw over (v, refl)
        | inr room ↦
            let (m, l) = loop-limit (suc (length b)) (extend x d) (omega arith) in
            let within : length b ≤ d.max_buffer_bytes = ground arith in
            rw room (omega (arith, m), m)
      ]

  -- If the bytes of two chunks fit in the buffer together, then, where feed returns without an
  -- error for the first, feeding both at once is feeding one after the other; where it fails for
  -- the first, the second chunk changes neither the records delivered nor the error.
  pub feed-append :
      (d : Decoder) (x y : List ℕ)
      → length d.buffer + length x + length y ≤ d.max_buffer_bytes
      → let f = feed_aead c w d x in
        let whole = feed_aead c w d (x ++ y) in
        (f.status ≡ returned none → whole ≡ with_records f.records (feed_aead c w f.decoder y))
        × (f.status ≢ returned none → (whole.records ≡ f.records) × (whole.status ≡ f.status))
  feed-append d x y h =
      let f = loop c w (extend x d) in
      let all : feed_aead c w d (x ++ y) ≡ resume (loop c w) y f =
        feed-loop d (x ++ y) (omega (arith, length-append x y))
        ∙ ap (λ b. loop c w (record d { buffer = b })) (sym (append_assoc d.buffer x y))
        ∙ loop-extend (suc (length (d.buffer ++ x))) (extend x d) y (omega arith) in
      let (m, l) = loop-limit (suc (length (d.buffer ++ x))) (extend x d) (omega arith) in
      let (more, done) = resume_cases (loop c w) y f.records f.decoder f.status in
      rw (all, feed-loop d x (omega arith))
        (
          λ e.
              more e
              ∙ ap (with_records f.records)
                  (sym (feed-loop f.decoder y (omega (arith, m, l, length-append d.buffer x)))),
          done,
        )
