-- ===== src/Config/Loaded.antt =====
-- What load_config of cdn/src/config.cpp returns, and the keys of its map.
use pacetun.Base.{
  ℕ, suc, ◌≡◌, refl, sym, subst, List, [], ◌∷◌, ◌++◌, true, false, Option, none, some, is_empty,
  trim, cut, Bool-cases, inl, inr, arith,
}
use pacetun.Flow.{list_eq}
use pacetun.Flow.Key.{list_eq_iff}
use pacetun.Config.{Config}
use pacetun.Config.Value.{ConfigError, Result, ok, err, then_ok}
use pacetun.Config.Lines.{Map, find, lines, before_comment, absent, add_entry, parse_lines}
use pacetun.Config.Profile.{apply_resource_cap}
use pacetun.Config.Load.{
  all_known, checked, finish, run, early_steps, session_steps, queue_steps, load_config,
}
use pacetun.Config.Validate.{validate_config}
use pacetun.Config.Valid.{Safe, validate_config-Safe}

then_ok_inv :
    {A B : Type 0} (r : Result A) (f : A → Result B) (b : B)
    → then_ok r f ≡ ok b
    → (a : A) × ((r ≡ ok a) × (f a ≡ ok b))
then_ok_inv (ok a) f b h = (a, (refl, h))
then_ok_inv (err e) f b h = absurd (ground arith)

checked_inv : (c d : Config) (e : Option ConfigError) → checked c e ≡ ok d → (c ≡ d) × (e ≡ none)
checked_inv c d none h = (ground arith, refl)
checked_inv c d (some e) h = absurd (ground arith)

-- Every key stands once.
abbrev pub Unique : Map → Type 0
Unique [] = Unit
Unique ((k, v) ∷ m) = (find k m ≡ none) × Unique m

find-append :
    (key k v : List ℕ) (m : Map)
    → list_eq k key ≡ false
    → find key m ≡ none
    → find key (m ++ (k, v) ∷ []) ≡ none
unfolding find
find-append key k v [] e h = rw e refl
find-append key k v ((j, w) ∷ m) e h = elim (Bool-cases (list_eq j key)) [
  | inl same ↦ absurd (ground arith)
  | inr other ↦ let h' : find key m ≡ none = ground arith in rw other (find-append key k v m e h')
]

list_eq_sym : (xs ys : List ℕ) → list_eq xs ys ≡ false → list_eq ys xs ≡ false
list_eq_sym xs ys h = elim (Bool-cases (list_eq ys xs)) [
  | inl same ↦ let e = (list_eq_iff ys xs).0 same in let again = (list_eq_iff xs ys).1 (sym e) in cc
  | inr other ↦ other
]

Unique-append : (k v : List ℕ) (m : Map) → find k m ≡ none → Unique m → Unique (m ++ (k, v) ∷ [])
unfolding find
Unique-append k v [] h u = (refl, tt)
Unique-append k v ((j, w) ∷ m) h u = elim (Bool-cases (list_eq j k)) [
  | inl same ↦ absurd (ground arith)
  | inr other ↦
      let h' : find k m ≡ none = ground arith in
      (find-append j k v m (list_eq_sym j k other) u.0, Unique-append k v m h' u.1)
]

absent-none : (o : Option (List ℕ)) → absent o ≡ true → o ≡ none
absent-none none h = refl
absent-none (some v) h = absurd (ground arith)

module _ (go : Map → Result Map) (ih : (m m' : Map) → go m ≡ ok m' → Unique m → Unique m') where
  add_entry-Unique :
      (at_line : ℕ) (m m' : Map) (s : Option (List ℕ × List ℕ))
      → add_entry go at_line m s ≡ ok m'
      → Unique m
      → Unique m'
  add_entry-Unique at_line m m' none h u = absurd (ground arith)
  add_entry-Unique at_line m m' (some (before, after)) h u =
      let key = trim before in
      elim (Bool-cases (is_empty key)) [
        | inl nothing ↦ let h' = rw nothing at h in absurd (ground arith)
        | inr named ↦ elim (Bool-cases (absent (find key m))) [
          | inl new ↦
              let h' = rw (named, new) at h in
              ih (m ++ (key, trim after) ∷ []) m' h'
                (Unique-append key (trim after) m (absent-none (find key m) new) u)
          | inr old ↦ let h' = rw (named, old) at h in absurd (ground arith)
        ]
      ]

parse_lines-Unique :
    (at_line : ℕ) (ls : List (List ℕ)) (m m' : Map)
    → parse_lines at_line ls m ≡ ok m'
    → Unique m
    → Unique m'
unfolding parse_lines
parse_lines-Unique at_line [] m m' h u = let e : m ≡ m' = ground arith in subst Unique e u
parse_lines-Unique at_line (l ∷ ls) m m' h u =
    let line = trim (before_comment l (cut b'#' l)) in
    elim (Bool-cases (is_empty line)) [
      | inl skipped ↦ parse_lines-Unique (suc at_line) ls m m' (rw skipped at h) u
      | inr text ↦
          add_entry-Unique (λ n. parse_lines (suc at_line) ls n)
            (λ n n' e v. parse_lines-Unique (suc at_line) ls n n' e v) at_line m m' (cut b'=' line)
            (rw text at h) u
    ]

finish_inv : (m : Map) (c d : Config) → finish m c ≡ ok d → (all_known m ≡ true) × Safe d
finish_inv m c d h = elim (Bool-cases (all_known m)) [
  | inl known ↦
      let c' = apply_resource_cap c c.resource_profile in
      let h' = rw known at h in
      let (same, fine) = checked_inv c' d (validate_config c') h' in
      (known, subst Safe same (validate_config-Safe c' fine))
  | inr unknown ↦ let h' = rw unknown at h in absurd (ground arith)
]

-- If load_config returns a configuration, then its map has every key once and known keys only,
-- and the configuration has 1 to 4 connections, more than one with WebSocket only, a valid MTU
-- and padding, reply deadlines that increase, reconnect and batch limits that are not below their
-- minima, batches that hold a padded packet under WebSocket, and encryption with a verified peer
-- for every WebSocket client.
pub load_config-Safe :
    (start c : Config) (text : List ℕ)
    → load_config start text ≡ ok c
    → Safe c
      × ((m : Map) × ((parse_lines 1 (lines text) [] ≡ ok m) × (Unique m × (all_known m ≡ true))))
unfolding load_config
load_config-Safe start c text h =
    let (m, (parsed, behind)) = then_ok_inv (parse_lines 1 (lines text) []) _ c h in
    let (c', (ran, last)) =
      then_ok_inv (run (early_steps m ++ (session_steps m ++ queue_steps m)) start) _ c behind in
    let (known, safe) = finish_inv m c' c last in
    (safe, (m, (parsed, (parse_lines-Unique 1 (lines text) [] m parsed tt, known))))
