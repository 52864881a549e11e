-- ===== src/Record/Genuine/Contents.antt =====
-- About the flags, lengths and contents of the records of cdn/src/record.cpp: validate_record_shape
-- and the unwrapping of feed_aead against descriptions of their own.
use pacetun.Base.{
  ℕ, ◌+◌, ◌-◌, ◌*◌, ◌≤◌, ◌≡◌, ◌≢◌, refl, ◌⊎◌, List, [], ◌∷◌, ◌++◌, Bool, true, false, ◌||◌, none,
  length, take, drop, ltb, ◌==◌, Bool-cases, Option-cases, length-take, length-drop, inl, inr,
  arith, take-append-drop,
}
use pacetun.Record.{
  ok, validate_record_shape, record_keepalive, record_ping, record_pong, record_envelope,
  record_padded, record_drain, plain_shape, not_plain,
}
use pacetun.Record.Decode.{unwrap, unwrap_envelope, unwrap_padded}

-- The flags and the lengths that belong together.
abbrev pub IsPlain : ℕ → ℕ → Type 0
IsPlain flags len =
    ((flags ≡ 0) × (20 ≤ len))
    ⊎ (((flags ≡ record_keepalive) × (len ≡ 0))
        ⊎ (((flags ≡ record_ping) ⊎ (flags ≡ record_pong)) × (len ≡ 8)))

abbrev pub IsShaped : Bool → ℕ → ℕ → Type 0
IsShaped ptt5 flags len =
    IsPlain flags len
    ⊎ ((ptt5 ≡ true)
        × (((flags ≡ record_envelope) × (3 ≤ len))
            ⊎ (((flags ≡ record_padded) × (22 ≤ len)) ⊎ ((flags ≡ record_drain) × (len ≡ 0)))))

plain_flags :
    (flags : ℕ)
    → not_plain flags ≡ false
    → (flags ≡ 0) ⊎ ((flags ≡ record_keepalive) ⊎ ((flags ≡ record_ping) ⊎ (flags ≡ record_pong)))
plain_flags flags h = elim (Bool-cases (flags == 0)) [
  | inl e ↦ inl (ground arith)
  | inr n ↦ elim (Bool-cases (flags == record_keepalive)) [
    | inl e ↦ inr (inl (ground arith))
    | inr m ↦ elim (Bool-cases (flags == record_ping)) [
      | inl e ↦ inr (inr (inl (ground arith)))
      | inr o ↦ inr (inr (inr (ground arith)))
    ]
  ]
]

plain_shape-IsPlain : (flags len : ℕ) → plain_shape flags len ≡ none → IsPlain flags len
plain_shape-IsPlain flags len h =
    let p : not_plain flags ≡ false = ground arith in
    elim (plain_flags flags p) [
      | inl e ↦ inl (e, ground arith)
      | inr (inl e) ↦ inr (inl (e, ground arith))
      | inr (inr e) ↦ inr (inr (e, ground arith))
    ]

pub shape-IsShaped :
    (ptt5 : Bool) (flags len : ℕ)
    → validate_record_shape ptt5 flags len ≡ none
    → IsShaped ptt5 flags len
unfolding validate_record_shape
shape-IsShaped false flags len h = inl (plain_shape-IsPlain flags len (ground arith))
shape-IsShaped true flags len h = elim (Bool-cases (flags == record_envelope)) [
  | inl e ↦ inr (refl, inl (ground arith, ground arith))
  | inr n ↦ elim (Bool-cases (flags == record_padded)) [
    | inl e ↦ inr (refl, inr (inl (ground arith, ground arith)))
    | inr m ↦ elim (Bool-cases (flags == record_drain)) [
      | inl e ↦ inr (refl, inr (inr (ground arith, ground arith)))
      | inr o ↦ inl (plain_shape-IsPlain flags len (ground arith))
    ]
  ]
]

-- A text that holds a payload and padding behind the flags of the payload and its size.
abbrev pub Enveloped : List ℕ → ℕ → List ℕ → Type 0
Enveloped plain flags payload =
    (hi : ℕ) × (lo : ℕ) × (padding : List ℕ) × (plain ≡ flags ∷ hi ∷ lo ∷ (payload ++ padding))
    × (length payload ≡ hi * 256 + lo)
    × (length padding ≤ 1024)
    × IsPlain flags (length payload)

-- A text that holds a packet and padding behind the size of the packet.
abbrev pub Padded : List ℕ → ℕ → List ℕ → Type 0
Padded plain flags payload =
    (hi : ℕ) × (lo : ℕ) × (padding : List ℕ) × (plain ≡ hi ∷ lo ∷ (payload ++ padding))
    × (length payload ≡ hi * 256 + lo)
    × (length padding ≤ 1024)
    × (20 ≤ length payload)
    × (flags ≡ 0)

-- What is delivered of the text of a record with flags `outer`.
abbrev pub Contains : ℕ → List ℕ → ℕ → List ℕ → Type 0
Contains outer plain flags payload =
    ((outer ≡ record_envelope) × Enveloped plain flags payload)
    ⊎ (((outer ≡ record_padded) × Padded plain flags payload)
        ⊎ ((outer ≢ record_envelope)
            × (outer ≢ record_padded)
            × (flags ≡ outer)
            × (payload ≡ plain)))

-- The payload and the padding, where the size told is within the text.
length-take_all : (n : ℕ) (s : List ℕ) → n ≤ length s → length (take n s) ≡ n
length-take_all n s h = omega (arith, length-take n s)

shape-IsPlain :
    (flags len : ℕ)
    → not_plain flags ≡ false
    → validate_record_shape true flags len ≡ none
    → IsPlain flags len
unfolding validate_record_shape
shape-IsPlain flags len p h = plain_shape-IsPlain flags len (ground arith)

unwrap_envelope-Enveloped :
    (plain : List ℕ) (flags : ℕ) (payload : List ℕ)
    → 3 ≤ length plain
    → unwrap_envelope plain ≡ ok (flags, payload)
    → Enveloped plain flags payload
unwrap_envelope-Enveloped [] flags payload l h = absurd (omega arith)
unwrap_envelope-Enveloped (a ∷ []) flags payload l h = absurd (omega arith)
unwrap_envelope-Enveloped (a ∷ b ∷ []) flags payload l h = absurd (omega arith)
unwrap_envelope-Enveloped (a ∷ b ∷ c ∷ s) flags payload l h =
    let n = b * 256 + c in
    elim (Bool-cases (
      not_plain a
      || ltb (length (a ∷ b ∷ c ∷ s) - 3) n
      || ltb 1024 (length (a ∷ b ∷ c ∷ s) - 3 - n))) [
        | inl bad ↦ absurd (ground arith)
        | inr good ↦ elim (Option-cases (validate_record_shape true a n)) [
          | inr (e, x) ↦ let h' = rw (good, x) at h in absurd (ground arith)
          | inl fits ↦
              let h' = rw (good, fits) at h in
              let f : a ≡ flags = ground arith in
              let t : take n s ≡ payload = ground arith in
              let inside : n ≤ length s = ground arith in
              let p : not_plain a ≡ false = ground arith in
              let size = length-take_all n s inside in
              (
                b,
                c,
                drop n s,
                rw (← f, ← t, take-append-drop n s) refl,
                rw (← t) size,
                ground (arith, length-drop n s),
                rw (← f, ← t, size) (shape-IsPlain a n p fits),
              )
        ]
      ]

unwrap_padded-Padded :
    (plain : List ℕ) (flags : ℕ) (payload : List ℕ)
    → 2 ≤ length plain
    → unwrap_padded plain ≡ ok (flags, payload)
    → Padded plain flags payload
unwrap_padded-Padded [] flags payload l h = absurd (omega arith)
unwrap_padded-Padded (a ∷ []) flags payload l h = absurd (omega arith)
unwrap_padded-Padded (a ∷ b ∷ s) flags payload l h =
    let n = a * 256 + b in
    elim (Bool-cases
      (ltb n 20 || ltb (length (a ∷ b ∷ s) - 2) n || ltb 1024 (length (a ∷ b ∷ s) - 2 - n))) [
        | inl bad ↦ absurd (ground arith)
        | inr good ↦
            let h' = rw good at h in
            let t : take n s ≡ payload = ground arith in
            let inside : n ≤ length s = ground arith in
            let size = length-take_all n s inside in
            (
              a,
              b,
              drop n s,
              rw (← t, take-append-drop n s) refl,
              rw (← t) size,
              ground (arith, length-drop n s),
              rw (← t, size) (ground arith),
              ground arith,
            )
      ]

pub unwrap-Contains :
    (ptt5 : Bool) (outer : ℕ) (plain : List ℕ) (flags : ℕ) (payload : List ℕ)
    → IsShaped ptt5 outer (length plain)
    → unwrap outer plain ≡ ok (flags, payload)
    → Contains outer plain flags payload
unfolding unwrap
unwrap-Contains ptt5 outer plain flags payload shaped h =
    elim (Bool-cases (outer == record_envelope)) [
      | inl e ↦
          inl
            (ground arith, unwrap_envelope-Enveloped plain flags payload (ground arith) (rw e at h))
      | inr n ↦ elim (Bool-cases (outer == record_padded)) [
        | inl e ↦ inr (
            inl (
              ground arith,
              unwrap_padded-Padded plain flags payload (ground arith) (rw (n, e) at h),
            ))
        | inr m ↦ inr (inr (ground arith, ground arith, ground arith, ground arith))
      ]
    ]
