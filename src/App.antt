-- ===== src/App.antt =====
-- internal/app/gateway.go: `poolRange`, the range of addresses that the application hands out on its
-- subnet. Its argument `gw` is not used there and left out.
pub mod Bounds
mod Tests
use dns_desktop.Common.{ℕ, ◌+◌, ◌-◌, ◌%◌, ◌^◌, not, ◌||◌, Result, ok, err, ltb, if◌then◌else◌}
use dns_desktop.Net.{Addr, v4, is4, Prefix, bits, prefix_is_valid, masked}

pub data RangeError : Type 0 where
  not_usable too_small : RangeError

-- `maxPool`
abbrev pub max_pool : ℕ
max_pool = 4096

-- Sums and differences of uint32.
abbrev pub add32 : ℕ → ℕ → ℕ
add32 a b = (a + b) % 2 ^ 32

abbrev pub sub32 : ℕ → ℕ → ℕ
sub32 a b = (a + 2 ^ 32 - b) % 2 ^ 32

-- The range above the base address `v` of a subnet of `size` addresses.
abbrev pub range_in : ℕ → ℕ → Addr × Addr
range_in v size =
    let first = add32 v 10 in
    let last = sub32 (add32 v size) 2 in
    (
      v4 first,
      v4 (
          if ltb max_pool (add32 (sub32 last first) 1)
          then sub32 (add32 first max_pool) 1
          else last),
    )

abbrev pub base_range : Addr → ℕ → Result RangeError (Addr × Addr)
base_range (v4 v) n = ok (range_in v (2 ^ (32 - n) % 2 ^ 32))
base_range _ n = err not_usable

unfoldable pub pool_range : Prefix → Result RangeError (Addr × Addr)
pool_range subnet =
    if not (prefix_is_valid subnet) || not (is4 subnet.addr)
    then err not_usable
    else if ltb 29 (bits subnet)
    then err too_small
    else base_range (masked subnet).addr (bits subnet)
