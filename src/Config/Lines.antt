-- ===== src/Config/Lines.antt =====
-- The lines of a configuration, cdn/src/config.cpp: the loop of load_config.
use pacetun.Base.{
  ℕ, suc, List, [], ◌∷◌, ◌++◌, Bool, true, false, Option, none, some, ◌==◌, if◌then◌else◌, is_empty,
  trim, cut,
}
use pacetun.Flow.{list_eq}
use pacetun.Config.Value.{expected_key_value, empty_key, duplicate_key, Result, ok, err}

-- The keys in the order of the file; the order of the std::unordered_map is not used.
abbrev pub Map : Type 0
Map = List (List ℕ × List ℕ)

unfoldable pub find : List ℕ → Map → Option (List ℕ)
unfolding list_eq
find key [] = none
find key ((k, v) ∷ m) = let rest = find key m in if list_eq k key then some v else rest

abbrev pub first_line : ℕ → List (List ℕ) → List (List ℕ)
first_line c [] = (c ∷ []) ∷ []
first_line c (l ∷ ls) = (c ∷ l) ∷ ls

-- std::getline, one line after the other. A file that ends in a line feed gives one empty line more here,
-- which is skipped.
unfoldable pub lines : List ℕ → List (List ℕ)
lines [] = []
lines (c ∷ s) = let rest = lines s in if c == 10 then [] ∷ rest else first_line c rest

abbrev pub before_comment : List ℕ → Option (List ℕ × List ℕ) → List ℕ
before_comment line none = line
before_comment line (some (text, comment)) = text

abbrev pub absent : Option (List ℕ) → Bool
absent none = true
absent (some v) = false

-- A line with a `=`, and `go` for the lines behind it.
abbrev pub add_entry : (Map → Result Map) → ℕ → Map → Option (List ℕ × List ℕ) → Result Map
add_entry go at_line m none = err (expected_key_value at_line)
add_entry go at_line m (some (before, after)) =
    let key = trim before in
    let rest = go (m ++ (key, trim after) ∷ []) in
    if is_empty key
    then err (empty_key at_line)
    else if absent (find key m)
    then rest
    else err (duplicate_key key)

unfoldable pub parse_lines : ℕ → List (List ℕ) → Map → Result Map
unfolding find trim cut
parse_lines at_line [] m = ok m
parse_lines at_line (l ∷ ls) m =
    let line = trim (before_comment l (cut b'#' l)) in
    let skipped = parse_lines (suc at_line) ls m in
    if is_empty line
    then skipped
    else add_entry (λ n. parse_lines (suc at_line) ls n) at_line m (cut b'=' line)
