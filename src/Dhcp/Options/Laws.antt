-- ===== src/Dhcp/Options/Laws.antt =====
-- The readers read what the writers wrote (internal/dhcp/option.go).
use dns_desktop.Common.{
  ℕ, ◌<◌, ◌^◌, ◌≡◌, refl, none, some, List, [], ◌∷◌, Bytes, ap, arith, ◌==◌, ℕ_eq, if◌then◌else◌,
  All,
}
use dns_desktop.Net.{Addr, no_addr, v4, v6, from_be32_of}
use dns_desktop.Dhcp.Options.{
  Options, get, set, delete, uint8, uint16, uint32, addr, addrs, set_uint8, set_uint16, set_uint32,
  set_addr, set_addrs, four_by_four, addr_bytes,
}

-- After `Set`, `Get` reads the data that was written at that code, and at every other code what it
-- read before.
pub get-set :
    (o : Options) (c d : ℕ) (b : Bytes) → get (set o c b) d ≡ (if c == d then some b else get o d)
unfolding get set
get-set [] c d b = refl
get-set (x ∷ o) c d b = ground (arith, get-set o c d b)

-- After a deletion, which removes every occurrence, the code is absent and the others are as before.
pub get-delete : (o : Options) (c d : ℕ) → get (delete o c) d ≡ (if c == d then none else get o d)
unfolding get delete
get-delete [] c d = ground arith
get-delete (x ∷ o) c d = ground (arith, get-delete o c d)

pub get-set_self : (o : Options) (c : ℕ) (b : Bytes) → get (set o c b) c ≡ some b
get-set_self o c b = ground (arith, get-set o c c b)

pub uint8-set_uint8 : (o : Options) (c v : ℕ) → uint8 (set_uint8 o c v) c ≡ some v
unfolding uint8 set_uint8
uint8-set_uint8 o c v = rw get-set_self

pub uint16-set_uint16 : (o : Options) (c v : ℕ) → v < 2 ^ 16 → uint16 (set_uint16 o c v) c ≡ some v
unfolding uint16 set_uint16
uint16-set_uint16 o c v h = rw get-set_self (ap some (omega arith))

pub uint32-set_uint32 : (o : Options) (c v : ℕ) → v < 2 ^ 32 → uint32 (set_uint32 o c v) c ≡ some v
unfolding uint32 set_uint32
uint32-set_uint32 o c v h = rw get-set_self (ap some (from_be32_of v h))

pub addr-set_addr :
    (o : Options) (c a : ℕ) → a < 2 ^ 32 → addr (set_addr o c (v4 a)) c ≡ some (v4 a)
unfolding addr set_addr
addr-set_addr o c a h = rw get-set_self (ap (λ n. some (v4 n)) (from_be32_of a h))

-- The IPv4 addresses of a list, in order.
abbrev pub v4_only : List Addr → List Addr
v4_only [] = []
v4_only (v4 a ∷ l) = v4 a ∷ v4_only l
v4_only (_ ∷ l) = v4_only l

abbrev pub FitsWire : Addr → Type 0
FitsWire (v4 a) = a < 2 ^ 32
FitsWire _ = Unit

four_by_four-addr_bytes :
    (l : List Addr) → All FitsWire l → four_by_four (addr_bytes l) ≡ some (v4_only l)
unfolding four_by_four addr_bytes
four_by_four-addr_bytes [] h = refl
four_by_four-addr_bytes (v4 a ∷ l) h =
    rw (four_by_four-addr_bytes l h.1) (ap (λ n. some (v4 n ∷ v4_only l)) (from_be32_of a h.0))
four_by_four-addr_bytes (no_addr ∷ l) h = four_by_four-addr_bytes l h.1
four_by_four-addr_bytes (v6 a ∷ l) h = four_by_four-addr_bytes l h.1

-- A list of addresses that begins with an IPv4 address, all of whose IPv4 addresses are of 32 bits,
-- is read back as its IPv4 addresses in order.
pub addrs-set_addrs :
    (o : Options) (c a : ℕ) (l : List Addr)
    → All FitsWire (v4 a ∷ l)
    → addrs (set_addrs o c (v4 a ∷ l)) c ≡ some (v4 a ∷ v4_only l)
unfolding addrs set_addrs addr_bytes four_by_four
addrs-set_addrs o c a l h = rw get-set_self (four_by_four-addr_bytes (v4 a ∷ l) h)
