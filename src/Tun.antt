-- ===== src/Tun.antt =====
-- The checks of the TUN device, cdn/src/platform/linux/tun_linux.cpp: ip_only, safe_token, validate_cidr,
-- validate_tun_inputs and the arguments that TunDevice gives to ip. inet_pton is a parameter.
pub mod Passed
pub mod Texts
pub mod Safe
use pacetun.Base.{
  ℕ, ◌+◌, ◌*◌, List, [], ◌∷◌, ◌++◌, Bool, true, false, not, ◌&&◌, ◌||◌, Option, none, some, ltb,
  leb, ◌==◌, if◌then◌else◌, length, is_empty, u64, cut, codes,
}
use pacetun.Base.Int.{ℤ, pos, negsuc}
use pacetun.Flow.{list_eq}
use pacetun.Config.Value.{digits, leb_int}

pub data TunError : Type 0 where
  empty_token unsafe_token bad_name bad_mtu not_cidr bad_prefix bad_address other_family small_mtu
        same_address :
      TunError

pub data Family : Type 0 where
  inet inet6 : Family

pub data Checked (A : Type 0) : Type 0 where
  fine : A → Checked A
  failed : TunError → Checked A

abbrev pub then_fine : {A B : Type 0} → Checked A → (A → Checked B) → Checked B
then_fine (fine a) f = f a
then_fine (failed e) f = failed e

abbrev pub before : List ℕ → Option (List ℕ × List ℕ) → List ℕ
before s none = s
before s (some (a, b)) = a

unfoldable pub ip_only : List ℕ → List ℕ
unfolding cut
ip_only cidr = before cidr (cut b'/' cidr)

-- std::isalnum and the five characters.
abbrev pub is_safe : ℕ → Bool
is_safe c =
    leb b'0' c && leb c b'9'
    || leb b'A' c && leb c b'Z'
    || leb b'a' c && leb c b'z'
    || c == b'.'
    || c == b':'
    || c == b'/'
    || c == b'_'
    || c == b'-'

abbrev pub all_safe : List ℕ → Bool
all_safe [] = true
all_safe (c ∷ s) = is_safe c && all_safe s

unfoldable pub safe_token : List ℕ → Checked Unit
safe_token s =
    if is_empty s then failed empty_token else if all_safe s then fine tt else failed unsafe_token

abbrev pub absent : Option (List ℕ × List ℕ) → Bool
absent none = true
absent (some s) = false

abbrev pub all_digits : List ℕ → Bool
all_digits [] = true
all_digits (c ∷ s) = leb b'0' c && leb c b'9' && all_digits s

abbrev pub family_of : List ℕ → Family
family_of address = if absent (cut b':' address) then inet else inet6

abbrev pub prefix_bits : Family → ℕ
prefix_bits inet = 32
prefix_bits inet6 = 128

-- The address and the prefix on both sides of the first slash. std::stoul throws from 2 ^ 64 on.
abbrev pub address_and_prefix : (Family → List ℕ → Bool) → Option (List ℕ × List ℕ) → Checked Family
address_and_prefix inet_pton none = failed not_cidr
address_and_prefix inet_pton (some (address, prefix)) =
    let family = family_of address in
    let bits = digits 10 0 prefix in
    if is_empty address || is_empty prefix || not (absent (cut b'/' prefix))
    then failed not_cidr
    else if not (all_digits prefix) || leb u64 bits
    then failed bad_prefix
    else if not (inet_pton family address) || ltb (prefix_bits family) bits
    then failed bad_address
    else fine family

unfoldable pub validate_cidr : (Family → List ℕ → Bool) → List ℕ → Checked Family
unfolding cut digits
validate_cidr inet_pton value = address_and_prefix inet_pton (cut b'/' value)

abbrev pub same_family : Family → Family → Bool
same_family inet inet = true
same_family inet inet6 = false
same_family inet6 inet = false
same_family inet6 inet6 = true

abbrev pub starts_with : ℕ → List ℕ → Bool
starts_with c [] = false
starts_with c (d ∷ s) = d == c

abbrev pub bad_device : List ℕ → Bool
bad_device dev =
    leb 16 (length dev)
    || starts_with b'-' dev
    || not (absent (cut b'/' dev))
    || not (absent (cut b':' dev))
    || starts_with b'.' dev

-- The last checks, on the families of both addresses.
abbrev pub addresses_fit : List ℕ → List ℕ → ℤ → Family → Family → Checked Family
addresses_fit cidr peer_cidr mtu family peer_family =
    if not (same_family family peer_family)
    then failed other_family
    else if same_family family inet6 && not (leb_int (pos 1280) mtu)
    then failed small_mtu
    else if list_eq (ip_only cidr) (ip_only peer_cidr)
    then failed same_address
    else fine family

unfoldable pub validate_tun_inputs :
    (Family → List ℕ → Bool) → List ℕ → List ℕ → List ℕ → ℤ → Checked Family
unfolding ip_only safe_token validate_cidr leb_int list_eq cut
validate_tun_inputs inet_pton dev cidr peer_cidr mtu = then_fine (safe_token dev) (λ checked.
    if bad_device dev
    then failed bad_name
    else then_fine (safe_token cidr) (λ checked. then_fine (safe_token peer_cidr) (λ checked.
      if not (leb_int (pos 576) mtu) || not (leb_int mtu (pos 9000))
      then failed bad_mtu
      else then_fine (validate_cidr inet_pton cidr) (λ family.
        then_fine (validate_cidr inet_pton peer_cidr)
          (λ peer_family. addresses_fit cidr peer_cidr mtu family peer_family)))))

-- The arguments of one ip command after another; `name` is what the kernel gave, `mtu` as a text.
abbrev pub route : Family → List ℕ → List ℕ → List ℕ → List (List (List ℕ))
route inet name ip peer = []
route inet6 name ip peer =
    (codes "-6"
      ∷ codes "route"
      ∷ codes "replace"
      ∷ (peer ++ codes "/128")
      ∷ codes "dev"
      ∷ name
      ∷ codes "src"
      ∷ ip
      ∷ [])
    ∷ []

unfoldable pub ip_commands : Family → List ℕ → List ℕ → List ℕ → List ℕ → List (List (List ℕ))
unfolding ip_only
ip_commands family name cidr peer_cidr mtu =
    (codes "link" ∷ codes "set" ∷ codes "dev" ∷ name ∷ codes "mtu" ∷ mtu ∷ [])
    ∷ (codes "addr" ∷ codes "flush" ∷ codes "dev" ∷ name ∷ codes "scope" ∷ codes "global" ∷ [])
    ∷ (codes "addr"
        ∷ codes "add"
        ∷ ip_only cidr
        ∷ codes "peer"
        ∷ ip_only peer_cidr
        ∷ codes "dev"
        ∷ name
        ∷ [])
    ∷ (codes "link" ∷ codes "set" ∷ codes "dev" ∷ name ∷ codes "up" ∷ [])
    ∷ route family name (ip_only cidr) (ip_only peer_cidr)
