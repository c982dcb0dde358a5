-- ===== src/Agent/Probe/Addresses.antt =====
-- What agent/probe uses of Go's net/netip: addresses with the number of their 32 or 128 bits, prefixes,
-- and the tests on them. The texts of addresses are parameters of those who parse or print them.
use xisnove.Prelude.{
  ℕ, String, Bool, true, false, not, ◌&&◌, ◌||◌, ◌-◌, ◌/◌, ◌%◌, ◌^◌, ◌==◌, if◌then◌else◌,
}
use xisnove.Prelude.Text.{is_empty}

-- The zero Addr, an IPv4 address, and an IPv6 address with its zone.
pub data Addr : Type 0 where
  invalid : Addr
  v4 : ℕ → Addr
  v6 : ℕ → String → Addr

pub data Prefix : Type 0 where
  no_prefix : Prefix
  prefix4 prefix6 : ℕ → ℕ → Prefix

-- The first `bits` of the `width` bits of the two numbers agree.
abbrev pub same_bits : ℕ → ℕ → ℕ → ℕ → Bool
same_bits width bits a b = a / 2 ^ (width - bits) == b / 2 ^ (width - bits)

-- Prefix.Contains
abbrev pub contains : Prefix → Addr → Bool
contains (prefix4 base bits) (v4 n) = same_bits 32 bits base n
contains (prefix6 base bits) (v6 n zone) = is_empty zone && same_bits 128 bits base n
contains _ _ = false

-- Addr.Unmap: ::ffff:a.b.c.d is a.b.c.d.
unfoldable pub unmap : Addr → Addr
unmap (v6 n zone) = if n / 2 ^ 32 == 0xffff then v4 (n % 2 ^ 32) else v6 n zone
unmap a = a

abbrev pub is_valid : Addr → Bool
is_valid invalid = false
is_valid _ = true

abbrev pub is_6 : Addr → Bool
is_6 (v6 n zone) = true
is_6 _ = false

-- address == netip.MustParseAddr("169.254.169.254")
abbrev pub is_metadata : Addr → Bool
is_metadata (v4 n) = n == 0xa9fea9fe
is_metadata _ = false

abbrev pub is_unspecified : Addr → Bool
is_unspecified (v4 n) = n == 0
is_unspecified (v6 n zone) = n == 0 && is_empty zone
is_unspecified _ = false

-- The tests below unmap a mapped address first, as those of the package do.
abbrev pub multicast : Addr → Bool
multicast (v4 n) = n / 2 ^ 28 == 0xe
multicast (v6 n zone) = n / 2 ^ 120 == 0xff
multicast _ = false

abbrev pub link_local : Addr → Bool
link_local (v4 n) = n / 2 ^ 16 == 0xa9fe
link_local (v6 n zone) = n / 2 ^ 118 == 0x3fa
link_local _ = false

abbrev pub loopback : Addr → Bool
loopback (v4 n) = n / 2 ^ 24 == 127
loopback (v6 n zone) = n == 1
loopback _ = false

abbrev pub private : Addr → Bool
private (v4 n) = n / 2 ^ 24 == 10 || n / 2 ^ 20 == 0xac1 || n / 2 ^ 16 == 0xc0a8
private (v6 n zone) = n / 2 ^ 121 == 0x7e
private _ = false

abbrev pub broadcast : Addr → Bool
broadcast (v4 n) = n == 0xffffffff
broadcast _ = false

abbrev pub is_multicast : Addr → Bool
unfolding unmap
is_multicast a = multicast (unmap a)

abbrev pub is_link_local_unicast : Addr → Bool
unfolding unmap
is_link_local_unicast a = link_local (unmap a)

abbrev pub is_loopback : Addr → Bool
unfolding unmap
is_loopback a = loopback (unmap a)

abbrev pub is_private : Addr → Bool
unfolding unmap
is_private a = private (unmap a)

abbrev pub is_global_unicast : Addr → Bool
unfolding unmap
is_global_unicast a =
    let b = unmap a in
    is_valid b
    && not (is_unspecified b)
    && not (broadcast b)
    && not (loopback b)
    && not (multicast b)
    && not (link_local b)
