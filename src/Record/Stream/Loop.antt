-- ===== src/Record/Stream/Loop.antt =====
-- About the fuel of `feed_loop`, for the loop of feed_aead in cdn/src/record.cpp.
use pacetun.Base.{
  ℕ, zero, suc, ◌+◌, ◌≤◌, ◌<◌, ◌≡◌, ◌≢◌, refl, sym, subst, ap, length, length-drop, inl, inr, arith,
}
use pacetun.Record.{Crypto, Wire, RecordError}
use pacetun.Record.Header.{parse_header_inv}
use pacetun.Record.Decode.{
  Decoder, Delivered, Turn, fail, deliver, Turn-cases, decode_one, stuck, Fed, with_record, go_on,
  feed_loop,
}
use pacetun.Record.Replay.{decode_one_inv, decode_one_fail}

module _ (c : Crypto) (w : Wire) where
  -- A record takes 32 bytes at least.
  pub deliver_shorter :
      (d e : Decoder) (r : Delivered)
      → decode_one c w d ≡ deliver e r
      → length e.buffer + 32 ≤ length d.buffer
  deliver_shorter d e r h =
      let a = decode_one_inv c w d e r h in
      let f = parse_header_inv w d.max_buffer_bytes d.buffer a.flags a.len a.parsed in
      rw (a.after) (omega (arith, length-drop (32 + a.len) d.buffer, f.complete))

  pub deliver_limit :
      (d e : Decoder) (r : Delivered)
      → decode_one c w d ≡ deliver e r
      → e.max_buffer_bytes ≡ d.max_buffer_bytes
  deliver_limit d e r h = let a = decode_one_inv c w d e r h in rw (a.after) refl

  pub fail_keeps :
      (d e : Decoder) (x : RecordError)
      → decode_one c w d ≡ fail e x
      → (e.max_buffer_bytes ≡ d.max_buffer_bytes) × (e.buffer ≡ d.buffer)
  fail_keeps d e x h = let k = decode_one_fail c w d e x h in (k.1, k.0)

  fuel_irrelevant :
      (m n : ℕ) (d : Decoder)
      → length d.buffer < m
      → length d.buffer < n
      → feed_loop c w m d ≡ feed_loop c w n d
  unfolding feed_loop
  fuel_irrelevant zero n d h k = absurd (omega arith)
  fuel_irrelevant (suc m) zero d h k = absurd (omega arith)
  fuel_irrelevant (suc m) (suc n) d h k = elim (Turn-cases (decode_one c w d)) [
    | inl e ↦ rw (e, go_on) refl
    | inr (inl (d', x, e)) ↦ rw (e, go_on) refl
    | inr (inr (d', r, e)) ↦
        let s = deliver_shorter d d' r e in
        rw (e, go_on) (ap (with_record r) (fuel_irrelevant m n d' (omega arith) (omega arith)))
  ]

  abbrev pub loop : Decoder → Fed
  loop d = feed_loop c w (suc (length d.buffer)) d

  pub feed_loop-loop : (n : ℕ) (d : Decoder) → length d.buffer < n → feed_loop c w n d ≡ loop d
  feed_loop-loop n d h = fuel_irrelevant n (suc (length d.buffer)) d h (omega arith)

  pub loop-step : (d : Decoder) → loop d ≡ go_on loop d (decode_one c w d)
  unfolding feed_loop
  loop-step d = elim (Turn-cases (decode_one c w d)) [
    | inl e ↦ rw (e, go_on) refl
    | inr (inl (d', x, e)) ↦ rw (e, go_on) refl
    | inr (inr (d', r, e)) ↦
        let s = deliver_shorter d d' r e in
        rw (e, go_on) (ap (with_record r) (feed_loop-loop (length d.buffer) d' (omega arith)))
  ]

  pub feed_loop-ne-stuck :
      (n : ℕ) (d : Decoder) → length d.buffer < n → (feed_loop c w n d).status ≢ stuck
  unfolding feed_loop
  feed_loop-ne-stuck zero d h = absurd (omega arith)
  feed_loop-ne-stuck (suc n) d h =
      let P = λ (t : Turn). (go_on (feed_loop c w n) d t).status ≢ stuck in
      elim (Turn-cases (decode_one c w d)) [
        | inl e ↦ subst P (sym e) (λ q. cc)
        | inr (inl (d', x, e)) ↦ subst P (sym e) (λ q. cc)
        | inr (inr (d', r, e)) ↦
            let s = deliver_shorter d d' r e in
            subst P (sym e) (feed_loop-ne-stuck n d' (omega arith))
      ]
