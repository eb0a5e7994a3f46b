-- ===== src/Dhcp/Options.antt =====
-- internal/dhcp/option.go: option lists, their readers and writers, and the wire form.
pub mod Wire
pub mod Laws
pub mod Durations
use dns_desktop.Common.{
  ℕ, zero, suc, ◌+◌, ◌-◌, ◌*◌, ◌/◌, ◌%◌, ◌^◌, Bool, true, false, ◌&&◌, ◌||◌, Option, none, some,
  List, [], ◌∷◌, ◌++◌, Bytes, length, null, ◌==◌, ℕ_eq, leb, if◌then◌else◌,
}
use dns_desktop.Common.Int.{ℤ, pos, negsuc}
use dns_desktop.Net.{Addr, no_addr, v4, v6, be16, be32, from_be32}

-- `Option` of the source; its field `Data` is `content`.
pub record DhcpOption : Type 0 where
  pub code : ℕ
  pub content : Bytes

abbrev pub Options : Type 0
Options = List DhcpOption

unfoldable pub get : Options → ℕ → Option Bytes
get [] code = none
get (o ∷ os) code = if o.code == code then some o.content else get os code

-- Replaces the first option with this code, or appends one.
unfoldable pub set : Options → ℕ → Bytes → Options
set [] code content = record { code = code; content = content } ∷ []
set (o ∷ os) code content =
    if o.code == code then record o { content = content } ∷ os else o ∷ set os code content

unfoldable pub delete : Options → ℕ → Options
delete [] code = []
delete (o ∷ os) code = let rest = delete os code in if o.code == code then rest else o ∷ rest

-- The readers of fixed-size values: a value of any other size is no value.
abbrev read8 : Bytes → Option ℕ
read8 (a ∷ []) = some a
read8 _ = none

abbrev read16 : Bytes → Option ℕ
read16 (a ∷ b ∷ []) = some (a * 2 ^ 8 + b)
read16 _ = none

abbrev read32 : Bytes → Option ℕ
read32 (a ∷ b ∷ c ∷ d ∷ []) = some (from_be32 a b c d)
read32 _ = none

abbrev and_then {ℓ} : {A B : Type ℓ} → Option A → (A → Option B) → Option B
and_then none f = none
and_then (some a) f = f a

unfoldable pub uint8 : Options → ℕ → Option ℕ
unfolding get
uint8 o code = and_then (get o code) read8

unfoldable pub uint16 : Options → ℕ → Option ℕ
unfolding get
uint16 o code = and_then (get o code) read16

unfoldable pub uint32 : Options → ℕ → Option ℕ
unfolding get
uint32 o code = and_then (get o code) read32

unfoldable pub addr : Options → ℕ → Option Addr
unfolding get
addr o code = and_then (get o code) (λ b. and_then (read32 b) (λ a. some (v4 a)))

-- The addresses of a byte string whose length is a multiple of four.
four_by_four : Bytes → Option (List Addr)
four_by_four [] = some []
four_by_four (a ∷ b ∷ c ∷ d ∷ rest) =
    and_then (four_by_four rest) (λ l. some (v4 (from_be32 a b c d) ∷ l))
four_by_four _ = none

unfoldable pub addrs : Options → ℕ → Option (List Addr)
unfolding get four_by_four
addrs o code = and_then (get o code) (λ b. if null b then none else four_by_four b)

abbrev pub second : ℕ
second = 1_000_000_000

-- The all-ones lease time on the wire, and the duration that stands for it.
abbrev pub infinite_seconds : ℕ
infinite_seconds = 0xffff_ffff

abbrev pub infinite : ℤ
infinite = pos (2 ^ 63 - 1)

unfoldable pub duration : Options → ℕ → Option ℤ
unfolding uint32
duration o code =
    and_then (uint32 o code)
      (λ v. some (if v == infinite_seconds then infinite else pos (v * second)))

-- `strings.TrimRight(s, "\x00")`
unfoldable pub trim_right_nul : Bytes → Bytes
trim_right_nul [] = []
trim_right_nul (x ∷ xs) =
    let rest = trim_right_nul xs in if null rest && x == 0 then [] else x ∷ rest

unfoldable pub string : Options → ℕ → Option Bytes
unfolding get trim_right_nul
string o code = and_then (get o code) (λ b. some (trim_right_nul b))

unfoldable pub set_uint8 : Options → ℕ → ℕ → Options
unfolding set
set_uint8 o code v = set o code (v ∷ [])

unfoldable pub set_uint16 : Options → ℕ → ℕ → Options
unfolding set
set_uint16 o code v = set o code (be16 v)

unfoldable pub set_uint32 : Options → ℕ → ℕ → Options
unfolding set
set_uint32 o code v = set o code (be32 v)

unfoldable pub set_addr : Options → ℕ → Addr → Options
unfolding set
set_addr o code (v4 a) = set o code (be32 a)
set_addr o code _ = o

-- The bytes of the IPv4 addresses of a list; any other address is left out.
pub addr_bytes : List Addr → Bytes
addr_bytes [] = []
addr_bytes (v4 a ∷ l) = be32 a ++ addr_bytes l
addr_bytes (_ ∷ l) = addr_bytes l

unfoldable pub set_addrs : Options → ℕ → List Addr → Options
unfolding set addr_bytes
set_addrs o code l = let buf = addr_bytes l in if null buf then o else set o code buf

unfoldable pub set_string : Options → ℕ → Bytes → Options
unfolding set
set_string o code s = set o code s

-- The largest power of two that is at most `n`, for `n` below 2 ^ k; 0 for 0.
unfoldable pub top_bit : ℕ → ℕ → ℕ
top_bit zero n = 0
top_bit (suc k) n = if leb (2 ^ k) n then 2 ^ k else top_bit k n

-- The integer part of `d.Seconds()` for d nanoseconds. `Seconds` adds the whole seconds and the
-- fraction as float64s, so the sum is rounded to 53 binary digits, and goes up to the next second
-- where the fraction lies within half a unit of the last digit of it.
unfoldable pub seconds : ℕ → ℕ
unfolding top_bit
seconds d =
    let whole = d / second in
    if leb ((second - d % second) * 2 ^ 53) (second * top_bit 34 whole) then whole + 1 else whole

unfoldable pub set_duration : Options → ℕ → ℤ → Options
unfolding set_uint32 seconds
set_duration o code (pos d) =
    if d == 2 ^ 63 - 1 || leb infinite_seconds (seconds d)
    then set_uint32 o code infinite_seconds
    else if d == 0
    then set_uint32 o code 0
    else set_uint32 o code (seconds d)
set_duration o code (negsuc _) = set_uint32 o code 0
