-- ===== src/Flow.antt =====
-- detail::PacketFlow and detail::packet_flow of cdn/include/pacetun/flow_scheduler.hpp: the key of
-- the flow (addresses, protocol and ports) that an IP packet belongs to.
pub mod Key
use pacetun.Base.{
  ℕ, zero, suc, ◌+◌, ◌*◌, ◌/◌, ◌%◌, List, [], ◌∷◌, Bool, true, false, not, ◌&&◌, ◌||◌, ltb, leb,
  ◌==◌, if◌then◌else◌, length, is_empty, get_or, set, take, replicate, slice, arith,
}

-- `bytes` is the array of 38 bytes; only the first `len` of them are the key.
pub record PacketFlow : Type 0 where
  pub bytes : List ℕ
  pub len : ℕ

-- std::equal on two ranges.
unfoldable pub list_eq : List ℕ → List ℕ → Bool
list_eq [] [] = true
list_eq (x ∷ xs) (y ∷ ys) = x == y && list_eq xs ys
list_eq _ _ = false

-- operator==
unfoldable pub flow_eq : PacketFlow → PacketFlow → Bool
unfolding list_eq
flow_eq a b = a.len == b.len && list_eq (take a.len a.bytes) (take a.len b.bytes)

-- std::copy_n to position `off` of an array.
unfoldable pub copy_at : List ℕ → ℕ → List ℕ → List ℕ
copy_at bs off [] = bs
copy_at bs off (x ∷ xs) = copy_at (set bs off x) (off + 1) xs

abbrev pub at : List ℕ → ℕ → ℕ
at p i = get_or p i 0

abbrev pub empty_flow : PacketFlow
empty_flow = record { bytes = replicate 38 0; len = 0 }

-- The first two bytes, and `n` bytes of the packet from `from` on.
abbrev address_flow : ℕ → ℕ → ℕ → ℕ → List ℕ → PacketFlow
address_flow version protocol from n p = record {
  bytes = copy_at (version ∷ protocol ∷ replicate 36 0) 2 (slice from n p);
  len = n + 2;
}

-- `if (ports)`: the four port bytes follow.
unfoldable pub add_ports : PacketFlow → ℕ → List ℕ → PacketFlow
unfolding copy_at
add_ports f ports p =
    if ports == 0
    then f
    else record { bytes = copy_at f.bytes f.len (slice ports 4 p); len = f.len + 4 }

abbrev pub is_tcp_udp : ℕ → Bool
is_tcp_udp protocol = protocol == 6 || protocol == 17

-- The bytes of the IPv4 header that are read: IHL, total length, fragment bits.
abbrev pub ihl : List ℕ → ℕ
ihl p = at p 0 % 16 * 4

abbrev pub total : List ℕ → ℕ
total p = at p 2 * 256 + at p 3

abbrev pub fragmented : List ℕ → Bool
fragmented p = not (at p 6 % 64 == 0) || not (at p 7 == 0)

abbrev pub v4_malformed : List ℕ → Bool
v4_malformed p =
    ltb (ihl p) 20 || ltb (total p) (ihl p) || ltb (length p) (ihl p) || ltb (length p) (total p)

abbrev pub v4_ports : List ℕ → ℕ
v4_ports p =
    if not (fragmented p) && is_tcp_udp (at p 9) && leb (ihl p + 4) (total p) then ihl p else 0

abbrev pub v6_ports : List ℕ → ℕ
v6_ports p = if is_tcp_udp (at p 6) && leb 44 (length p) then 40 else 0

unfoldable pub packet_flow : List ℕ → PacketFlow
unfolding copy_at add_ports
packet_flow p =
    if is_empty p
    then empty_flow
    else if at p 0 / 16 == 4 && leb 20 (length p)
    then (if v4_malformed p
        then empty_flow
        else add_ports (address_flow 4 (at p 9) 12 8 p) (v4_ports p) p)
    else (if at p 0 / 16 == 6 && leb 40 (length p)
        then add_ports (address_flow 6 (at p 6) 8 32 p) (v6_ports p) p
        else empty_flow)
