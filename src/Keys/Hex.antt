-- ===== src/Keys/Hex.antt =====
-- About hex_decode, hex_encode, the keys as texts and the PTT5 transcript of cdn/src/record.cpp.
use pacetun.Base.{
  ℕ, ◌+◌, ◌*◌, ◌/◌, ◌%◌, ◌<◌, ◌≡◌, refl, sym, ap, ◌∙◌, List, [], ◌∷◌, ◌++◌, some, length, All,
  IsByte, arith, take, drop, codes, ◌==◌, Bool-cases, inl, inr,
}
use pacetun.Keys.{
  hex_nibble, hex_decode, hex_digit, hex_encode, key32_hex, key32_from_hex, transcript,
}
use pacetun.Record.RoundTrip.{take_exact, drop_exact}

hex_nibble-hex_digit : (n : ℕ) → n < 16 → hex_nibble (hex_digit n) ≡ some n
unfolding hex_nibble
hex_nibble-hex_digit n h = ground arith

-- Decoding the hexadecimal text of any bytes gives the bytes.
pub hex_decode-hex_encode : (v : List ℕ) → All IsByte v → hex_decode (hex_encode v) ≡ some v
unfolding hex_decode hex_encode
hex_decode-hex_encode [] h = refl
hex_decode-hex_encode (b ∷ bs) h =
    let byte : b / 16 * 16 + b % 16 ≡ b = omega arith in
    rw
      (
        hex_nibble-hex_digit (b / 16) (omega (arith, h.0)),
        hex_nibble-hex_digit (b % 16) (omega arith),
        hex_decode-hex_encode bs h.1,
        byte,
      )
      refl

append-same :
    (n : ℕ) (xs ys xs' ys' : List ℕ)
    → length xs ≡ n
    → length xs' ≡ n
    → xs ++ ys ≡ xs' ++ ys'
    → (xs ≡ xs') × (ys ≡ ys')
append-same n xs ys xs' ys' h h' e = (
  sym (take_exact n xs ys h) ∙ ap (take n) e ∙ take_exact n xs' ys' h',
  sym (drop_exact n xs ys h) ∙ ap (drop n) e ∙ drop_exact n xs' ys' h',
)

-- If the first three parts of two PTT5 transcripts are of 32 bytes each and the transcripts are
-- the same bytes, their nonces and public keys are the same.
pub transcript_determines :
    (s c p q s' c' p' q' : List ℕ)
    → (length s ≡ 32) × (length c ≡ 32) × (length p ≡ 32)
    → (length s' ≡ 32) × (length c' ≡ 32) × (length p' ≡ 32)
    → transcript s c p q ≡ transcript s' c' p' q'
    → (s ≡ s') × (c ≡ c') × (p ≡ p') × (q ≡ q')
unfolding transcript
transcript_determines s c p q s' c' p' q' (ls, lc, lp) (ls', lc', lp') e =
    let (_, e1) = append-same 12 (codes "PaceTun-PTT5") _ (codes "PaceTun-PTT5") _ refl refl e in
    let (es, e2) = append-same 32 s _ s' _ ls ls' e1 in
    let (ec, e3) = append-same 32 c _ c' _ lc lc' e2 in
    let (ep, eq) = append-same 32 p q p' q' lp lp' e3 in (es, ec, ep, eq)

-- A key of bytes that key32_hex writes as a text is read back by key32_from_hex.
pub key32_from_hex-key32_hex :
    (key hex : List ℕ) → All IsByte key → key32_hex key ≡ some hex → key32_from_hex hex ≡ some key
unfolding key32_from_hex key32_hex
key32_from_hex-key32_hex key hex h e = elim (Bool-cases (length key == 32)) [
  | inr bad ↦ let e = rw bad at e in cc
  | inl good ↦
      let same : some (hex_encode key) ≡ some hex = rw good at e in
      let t : hex_encode key ≡ hex = cc in rw (← t, hex_decode-hex_encode key h, good) refl
]
