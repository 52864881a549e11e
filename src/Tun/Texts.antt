-- ===== src/Tun/Texts.antt =====
-- About the texts that cdn/src/platform/linux/tun_linux.cpp checks: where a character stands, safe characters, decimal
-- digits.
use pacetun.Base.{
  ℕ, ◌+◌, ◌-◌, ◌*◌, ◌≤◌, ◌≡◌, ◌≢◌, refl, ap, cut_behind, List, [], ◌∷◌, ◌++◌, Bool, true, false,
  ◌&&◌, ◌||◌, ◌⊎◌, Option, none, some, All, cut, leb, ◌==◌, Bool-cases, Option-cases, inl, inr,
  arith,
}
use pacetun.Config.Value.{digits}
use pacetun.Tun.{is_safe, all_safe, all_digits, absent}

-- No character of the text is `x`.
abbrev pub Lacks : ℕ → List ℕ → Type 0
Lacks x s = All (λ c. c ≢ x) s

abbrev Parted : ℕ → List ℕ → List ℕ → List ℕ → Type 0
Parted x s a b = (s ≡ a ++ (x ∷ b)) × Lacks x a

behind-Parted :
    (x c : ℕ) (s : List ℕ) (r : Option (List ℕ × List ℕ)) (a b : List ℕ)
    → c ≢ x
    → ((p q : List ℕ) → r ≡ some (p, q) → Parted x s p q)
    → cut_behind c r ≡ some (a, b)
    → Parted x (c ∷ s) a b
behind-Parted x c s none a b n k h = cc
behind-Parted x c s (some (p, q)) [] b n k h = absurd (ground arith)
behind-Parted x c s (some (p, q)) (d ∷ a) b n k h =
    let (e, l) = k p q refl in
    let same : c ≡ d = ground arith in
    let first : p ≡ a = ground arith in
    let second : q ≡ b = ground arith in
    (rw (← same, ← first, ← second) (ap (◌∷◌ c) e), (rw (← same) n, rw (← first) l))

-- The first `x` parts a text.
pub cut-some : (x : ℕ) (s a b : List ℕ) → cut x s ≡ some (a, b) → (s ≡ a ++ (x ∷ b)) × Lacks x a
unfolding cut
cut-some x [] a b h = cc
cut-some x (c ∷ s) a b h = elim (Bool-cases (c == x)) [
  | inl here ↦
      let h' = rw here at h in
      let e : c ≡ x = ground arith in
      let first : [] ≡ a = ground arith in
      let second : s ≡ b = ground arith in rw (← first, ← second, e) (refl, tt)
  | inr later ↦
      behind-Parted x c s (cut x s) a b (ground arith) (λ p q e. cut-some x s p q e) (rw later at h)
]

behind-none : (c : ℕ) (r : Option (List ℕ × List ℕ)) → cut_behind c r ≡ none → r ≡ none
behind-none c none h = refl
behind-none c (some (p, q)) h = absurd (ground arith)

pub cut-none : (x : ℕ) (s : List ℕ) → cut x s ≡ none → Lacks x s
unfolding cut
cut-none x [] h = tt
cut-none x (c ∷ s) h = elim (Bool-cases (c == x)) [
  | inl here ↦ absurd (ground arith)
  | inr later ↦ (ground arith, cut-none x s (behind-none c (cut x s) (rw later at h)))
]

-- Without `x`, as the program tests it.
pub absent-Lacks : (x : ℕ) (s : List ℕ) → absent (cut x s) ≡ true → Lacks x s
absent-Lacks x s h = elim (Option-cases (cut x s)) [
  | inl e ↦ cut-none x s e
  | inr (p, e) ↦ absurd (ground arith)
]

-- A letter, a digit, or one of the characters . : / _ -
abbrev pub IsSafe : ℕ → Type 0
IsSafe c =
    ((((((((48 ≤ c) × (c ≤ 57)) ⊎ ((65 ≤ c) × (c ≤ 90))) ⊎ ((97 ≤ c) × (c ≤ 122))) ⊎ (c ≡ 46))
          ⊎ (c ≡ 58))
        ⊎ (c ≡ 47))
      ⊎ (c ≡ 95))
    ⊎ (c ≡ 45)

either : {P Q : Type 0} (a b : Bool) → (a ≡ true → P) → (b ≡ true → Q) → (a || b) ≡ true → P ⊎ Q
either true b f g h = inl (f refl)
either false b f g h = inr (g h)

between : (a b c : ℕ) → (leb a c && leb c b) ≡ true → (a ≤ c) × (c ≤ b)
between a b c h = (ground arith, ground arith)

is_code : (c d : ℕ) → (c == d) ≡ true → c ≡ d
is_code c d h = ground arith

is_safe-IsSafe : (c : ℕ) → is_safe c ≡ true → IsSafe c
is_safe-IsSafe c h =
    either _ _
      (either _ _
        (either _ _
          (either _ _
            (either _ _
              (either _ _ (either (leb 48 c && leb c 57) _ (between 48 57 c) (between 65 90 c))
                (between 97 122 c))
              (is_code c 46))
            (is_code c 58))
          (is_code c 47))
        (is_code c 95))
      (is_code c 45) h

pub all_safe-All : (s : List ℕ) → all_safe s ≡ true → All IsSafe s
all_safe-All [] h = tt
all_safe-All (c ∷ s) h = (is_safe-IsSafe c (ground arith), all_safe-All s (ground arith))

abbrev pub IsDigit : ℕ → Type 0
IsDigit c = (48 ≤ c) × (c ≤ 57)

pub all_digits-All : (s : List ℕ) → all_digits s ≡ true → All IsDigit s
all_digits-All [] h = tt
all_digits-All (c ∷ s) h = ((ground arith, ground arith), all_digits-All s (ground arith))

-- The number that decimal digits write, behind those that write `n`.
abbrev pub decimal : ℕ → List ℕ → ℕ
decimal n [] = n
decimal n (c ∷ s) = decimal (n * 10 + (c - 48)) s

pub digits-decimal : (n : ℕ) (s : List ℕ) → All IsDigit s → digits 10 n s ≡ decimal n s
unfolding digits
digits-decimal n [] h = refl
digits-decimal n (c ∷ s) h = ground (arith, digits-decimal (n * 10 + (c - 48)) s h.1, h.0)
