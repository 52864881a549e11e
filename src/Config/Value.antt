-- ===== src/Config/Value.antt =====
-- The values of a configuration: bval, and std::stoi, std::stoull and the integers as cdn/src/config.cpp uses them.
use Prim.Native.String.{String}
use pacetun.Base.{
  ℕ, ◌+◌, ◌-◌, ◌*◌, ◌%◌, List, [], ◌∷◌, Bool, true, false, ◌&&◌, ◌||◌, Option, none, some, ltb, leb,
  ◌==◌, if◌then◌else◌, u64, codes, drop_spaces,
}
use pacetun.Base.Int.{ℤ, pos, negsuc}
use pacetun.Flow.{list_eq}

-- What a named field is refused for.
pub data FieldError : Type 0 where
  out_of_range is_required too_long bad_characters is_empty must_use_ipv6 must_use_host_port :
      FieldError
  invalid_host_port invalid_port port_out_of_range : FieldError

pub data ConfigError : Type 0 where
  expected_key_value empty_key : ℕ → ConfigError
  duplicate_key invalid_boolean : List ℕ → ConfigError
  unknown_key not_a_number : ConfigError
  in_field : String → FieldError → ConfigError
  refused : String → ConfigError

pub data Result (A : Type 0) : Type 0 where
  ok : A → Result A
  err : ConfigError → Result A

abbrev pub then_ok : {A B : Type 0} → Result A → (A → Result B) → Result B
then_ok (ok a) f = f a
then_ok (err e) f = err e

unfoldable pub leb_int : ℤ → ℤ → Bool
leb_int (pos a) (pos b) = leb a b
leb_int (pos a) (negsuc b) = false
leb_int (negsuc a) (pos b) = true
leb_int (negsuc a) (negsuc b) = leb b a

unfoldable pub min_int : ℤ → ℤ → ℤ
unfolding leb_int
min_int a b = if leb_int a b then a else b

unfoldable pub max_int : ℤ → ℤ → ℤ
unfolding leb_int
max_int a b = if leb_int a b then b else a

-- The sum as a number: where it is no int, the sum in C++ is undefined.
unfoldable pub add_int : ℤ → ℤ → ℤ
add_int (pos a) (pos b) = pos (a + b)
add_int (pos a) (negsuc b) = if ltb b a then pos (a - b - 1) else negsuc (b - a)
add_int (negsuc a) (pos b) = if ltb a b then pos (b - a - 1) else negsuc (a - b)
add_int (negsuc a) (negsuc b) = negsuc (a + b + 1)

abbrev pub is_zero : ℤ → Bool
is_zero (pos n) = n == 0
is_zero (negsuc n) = false

-- The casts to size_t and from size_t to long long.
unfoldable pub size_of : ℤ → ℕ
size_of (pos n) = n
size_of (negsuc n) = u64 - (n + 1)

unfoldable pub long_of : ℕ → ℤ
long_of n = if ltb n 9223372036854775808 then pos n else negsuc (u64 - 1 - n)

-- The digits at the front of a text, below `base`.
unfoldable pub digits : ℕ → ℕ → List ℕ → ℕ
digits base acc [] = acc
digits base acc (c ∷ s) =
    let rest = digits base (acc * base + (c - 48)) s in
    if leb 48 c && ltb c (48 + base) then rest else acc

unfoldable pub unsigned : ℕ → List ℕ → Option ℕ
unfolding digits
unsigned base [] = none
unsigned base (c ∷ s) = if leb 48 c && ltb c (48 + base) then some (digits base 0 (c ∷ s)) else none

abbrev pub negated : ℕ → ℤ
negated n = if n == 0 then pos 0 else negsuc (n - 1)

abbrev pub behind : Bool → Option ℕ → Option (Bool × ℕ)
behind minus none = none
behind minus (some n) = some (minus, n)

-- A sign and the digits behind it.
abbrev pub signed : ℕ → List ℕ → Option (Bool × ℕ)
signed base [] = none
signed base (c ∷ s) =
    if c == b'-'
    then behind true (unsigned base s)
    else if c == b'+'
    then behind false (unsigned base s)
    else behind false (unsigned base (c ∷ s))

-- Into an int, with `none` for std::invalid_argument and std::out_of_range.
abbrev pub int_of : Option (Bool × ℕ) → Option ℤ
int_of none = none
int_of (some (true, n)) = if leb n 2147483648 then some (negated n) else none
int_of (some (false, n)) = if leb n 2147483647 then some (pos n) else none

unfoldable pub stoi : List ℕ → Option ℤ
unfolding unsigned
stoi s = int_of (signed 10 (drop_spaces s))

-- std::stoi(s, nullptr, 8)
unfoldable pub stoi_octal : List ℕ → Option ℤ
unfolding unsigned
stoi_octal s = int_of (signed 8 (drop_spaces s))

-- A minus sign wraps around.
abbrev pub size_of_text : Option (Bool × ℕ) → Option ℕ
size_of_text none = none
size_of_text (some (minus, n)) =
    if leb u64 n then none else some (if minus then (u64 - n) % u64 else n)

unfoldable pub stoull : List ℕ → Option ℕ
unfolding unsigned
stoull s = size_of_text (signed 10 (drop_spaces s))

unfoldable pub bval : List ℕ → Result Bool
unfolding list_eq
bval v =
    if list_eq v (codes "1")
      || list_eq v (codes "true")
      || list_eq v (codes "yes")
      || list_eq v (codes "on")
    then ok true
    else if list_eq v (codes "0")
        || list_eq v (codes "false")
        || list_eq v (codes "no")
        || list_eq v (codes "off")
    then ok false
    else err (invalid_boolean v)
