-- ===== src/Record/Header.antt =====
-- About the header checks of feed_aead, cdn/src/record.cpp.
use pacetun.Base.{
  ℕ, ◌+◌, ◌≤◌, ◌≡◌, refl, List, true, Option, none, some, ltb, length, Bool-cases, inl, inr, arith,
}
use pacetun.Flow.{at}
use pacetun.Record.{Wire, RecordError, validate_record_shape}
use pacetun.Record.Decode.{found, has_magic, len_field, fits, parse_header}

pub record Found (w : Wire) (max_bytes : ℕ) (b : List ℕ) (flags len : ℕ) : Type 0 where
  pub magic : has_magic w b ≡ true
  pub flags_field : flags ≡ at b 5
  pub len_is : len ≡ len_field b
  pub shape : validate_record_shape w.ptt5 flags len ≡ none
  pub allowed : 32 + len ≤ max_bytes
  pub complete : 32 + len ≤ length b

fits_inv :
    (w : Wire) (max_bytes : ℕ) (b : List ℕ) (o : Option RecordError) (flags len : ℕ)
    → has_magic w b ≡ true
    → validate_record_shape w.ptt5 (at b 5) (len_field b) ≡ o
    → fits max_bytes b o ≡ found flags len
    → Found w max_bytes b flags len
fits_inv w max_bytes b (some e) flags len m s h = cc
fits_inv w max_bytes b none flags len m s h = elim (Bool-cases (ltb max_bytes (32 + len_field b))) [
  | inl over ↦ absurd (ground arith)
  | inr allowed ↦ elim (Bool-cases (ltb (length b) (32 + len_field b))) [
    | inl short ↦ absurd (ground arith)
    | inr complete ↦
        let h' = rw (allowed, complete) at h in
        record {
          magic = m;
          flags_field = cc;
          len_is = cc;
          shape = let f : flags ≡ at b 5 = cc in let l : len ≡ len_field b = cc in rw (f, l) s;
          allowed = ground arith;
          complete = ground arith;
        }
  ]
]

pub parse_header_inv :
    (w : Wire) (max_bytes : ℕ) (b : List ℕ) (flags len : ℕ)
    → parse_header w max_bytes b ≡ found flags len
    → Found w max_bytes b flags len
unfolding parse_header
parse_header_inv w max_bytes b flags len h = elim (Bool-cases (ltb (length b) 16)) [
  | inl short ↦ absurd (ground arith)
  | inr long ↦ elim (Bool-cases (has_magic w b)) [
    | inr other ↦ absurd (ground arith)
    | inl m ↦ fits_inv w max_bytes b _ flags len m refl (rw (long, m) at h)
  ]
]
