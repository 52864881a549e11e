-- ===== src/Tests/Texts.antt =====
-- Hexadecimal texts, transcripts and messages on concrete inputs.
use pacetun.Base.{
  ℕ, zero, suc, ◌≡◌, refl, List, [], ◌∷◌, some, replicate, All, IsByte, codes, arith,
}
use pacetun.Keys.{hex_decode, hex_encode, key32_hex}
use pacetun.Keys.Hex.{transcript_determines}
use pacetun.Keys.Lines.{OneLine, one_line-OneLine, server_message_determines}

hex_run : hex_encode (0 ∷ 171 ∷ 255 ∷ []) ≡ codes "00abff"
unfolding hex_encode
hex_run = refl

-- The case of the letters does not matter to the decoder.
upper_run : hex_decode (codes "00AbFf") ≡ some (0 ∷ 171 ∷ 255 ∷ [])
unfolding hex_decode
upper_run = refl

abbrev key : List ℕ
key = replicate 32 18

replicate-IsByte : (n : ℕ) → All IsByte (replicate n 18)
replicate-IsByte zero = tt
replicate-IsByte (suc n) = (omega arith, replicate-IsByte n)

key_text : key32_hex key ≡ some (hex_encode key)
unfolding key32_hex
key_text = refl

transcript_determines_example : (key ≡ key) × (key ≡ key) × (key ≡ key) × (key ≡ key)
transcript_determines_example =
    transcript_determines key key key key key key key key (refl, refl, refl) (refl, refl, refl) refl

abbrev fields : List (List ℕ)
fields =
    codes "example.org" ∷ codes "/tunnel" ∷ codes "aa" ∷ codes "bb" ∷ codes "cc" ∷ codes "dd" ∷ []

fields-OneLine : All OneLine fields
fields-OneLine = (
  one_line-OneLine (codes "example.org") refl,
  (
    one_line-OneLine (codes "/tunnel") refl,
    (
      one_line-OneLine (codes "aa") refl,
      (
        one_line-OneLine (codes "bb") refl,
        (one_line-OneLine (codes "cc") refl, (one_line-OneLine (codes "dd") refl, tt)),
      ),
    ),
  ),
)

server_message_determines_example : fields ≡ fields
server_message_determines_example =
    server_message_determines (codes "example.org") (codes "/tunnel") (codes "aa") (codes "bb")
      (codes "cc") (codes "dd") (codes "example.org") (codes "/tunnel") (codes "aa") (codes "bb")
      (codes "cc") (codes "dd") fields-OneLine fields-OneLine refl
