-- ===== src/Net.antt =====
-- The addresses and prefixes of Go's net/netip, as the repository uses them. An IPv4 address is its
-- 32-bit value and an IPv6 address its 128-bit value; zones do not occur.
use dns_desktop.Common.{
  ℕ, ◌+◌, ◌-◌, ◌*◌, ◌/◌, ◌%◌, ◌^◌, ◌<◌, ◌≡◌, ◌↔◌, Bool, true, false, ◌&&◌, [], ◌∷◌, arith, Bytes,
  Eq, ltb, nat_eq, if◌then◌else◌,
}

pub data Addr : Type 0 where
  -- the zero `netip.Addr`
  no_addr : Addr
  v4 : ℕ → Addr
  v6 : ℕ → Addr

abbrev pub addr_eq : Addr → Addr → Bool
addr_eq no_addr no_addr = true
addr_eq (v4 a) (v4 b) = nat_eq a b
addr_eq (v6 a) (v6 b) = nat_eq a b
addr_eq _ _ = false

pub addr_eq_iff : (a b : Addr) → (addr_eq a b ≡ true) ↔ (a ≡ b)
addr_eq_iff no_addr no_addr = ground arith
addr_eq_iff (v4 a) (v4 b) = ground arith
addr_eq_iff (v6 a) (v6 b) = ground arith
addr_eq_iff _ _ = ground arith

instance abbrev pub addr_eq_instance : Eq Addr
addr_eq_instance = record { equals = addr_eq; equals_iff = addr_eq_iff }

abbrev pub is_valid : Addr → Bool
is_valid no_addr = false
is_valid _ = true

abbrev pub is4 : Addr → Bool
is4 (v4 a) = true
is4 _ = false

-- `IsUnspecified`: 0.0.0.0 or ::
abbrev pub is_unspecified : Addr → Bool
is_unspecified (v4 a) = nat_eq a 0
is_unspecified (v6 a) = nat_eq a 0
is_unspecified no_addr = false

-- `Unmap`: an IPv4 address mapped into IPv6 (::ffff:0:0/96) becomes the IPv4 address.
abbrev pub unmap : Addr → Addr
unmap (v6 a) = if nat_eq (a / 2 ^ 32) 0xffff then v4 (a % 2 ^ 32) else v6 a
unmap a = a

-- `Compare`: by width, then by value.
abbrev pub addr_lt : Addr → Addr → Bool
addr_lt no_addr no_addr = false
addr_lt no_addr _ = true
addr_lt (v4 a) (v4 b) = ltb a b
addr_lt (v4 a) (v6 b) = true
addr_lt (v6 a) (v6 b) = ltb a b
addr_lt _ _ = false

-- The four bytes of a big-endian 32-bit number, and the number of four bytes.
abbrev pub be32 : ℕ → Bytes
be32 a = (a / 2 ^ 24 % 256) ∷ (a / 2 ^ 16 % 256) ∷ (a / 2 ^ 8 % 256) ∷ (a % 256) ∷ []

abbrev pub from_be32 : ℕ → ℕ → ℕ → ℕ → ℕ
from_be32 a b c d = a * 2 ^ 24 + b * 2 ^ 16 + c * 2 ^ 8 + d

abbrev pub be16 : ℕ → Bytes
be16 a = (a / 2 ^ 8 % 256) ∷ (a % 256) ∷ []

pub from_be32_of :
    (a : ℕ)
    → a < 2 ^ 32
    → from_be32 (a / 2 ^ 24 % 256) (a / 2 ^ 16 % 256) (a / 2 ^ 8 % 256) (a % 256) ≡ a
from_be32_of a h = omega arith

-- `netip.Prefix` keeps the length plus one, so that the zero value is not valid.
pub record Prefix : Type 0 where
  pub addr : Addr
  pub bits_plus_one : ℕ

abbrev pub bits : Prefix → ℕ
bits p = p.bits_plus_one - 1

abbrev pub prefix_is_valid : Prefix → Bool
prefix_is_valid p = ltb 0 p.bits_plus_one

-- `Masked`: the host bits cleared.
abbrev pub mask_addr : Addr → ℕ → Addr
mask_addr (v4 a) n = v4 (a / 2 ^ (32 - n) * 2 ^ (32 - n))
mask_addr (v6 a) n = v6 (a / 2 ^ (128 - n) * 2 ^ (128 - n))
mask_addr no_addr n = no_addr

abbrev pub masked : Prefix → Prefix
masked p =
    if prefix_is_valid p
    then record p { addr = mask_addr p.addr (bits p) }
    else record p { addr = no_addr }

abbrev pub same_net : ℕ → Addr → Addr → Bool
same_net n (v4 a) (v4 b) = nat_eq (a / 2 ^ (32 - n)) (b / 2 ^ (32 - n))
same_net n (v6 a) (v6 b) = nat_eq (a / 2 ^ (128 - n)) (b / 2 ^ (128 - n))
same_net n _ _ = false

abbrev pub contains : Prefix → Addr → Bool
contains p a = prefix_is_valid p && same_net (bits p) p.addr a
