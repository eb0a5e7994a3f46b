-- ===== src/App/Tests.antt =====
-- Runs of `poolRange` (internal/app/gateway.go) on home subnets.
use dns_desktop.Common.{ℕ, ◌-◌, ◌*◌, ◌/◌, ◌^◌, ◌≡◌, refl, ok, false, arith}
use dns_desktop.Net.{v4, masked, contains}
use dns_desktop.App.{pool_range}
use dns_desktop.App.Bounds.{subnet_of, IsRange, pool_range-IsRange, pool_range-outside}

-- 192.168.1.7
abbrev home_address : ℕ
home_address = 3232235783

home_address-range : pool_range (subnet_of home_address 24) ≡ ok (v4 3232235786, v4 3232236030)
unfolding pool_range
home_address-range = refl

wide-range : pool_range (subnet_of home_address 16) ≡ ok (v4 3232235530, v4 3232239625)
unfolding pool_range
wide-range = refl

pool_range-IsRange_example :
    (first last : ℕ) × (pool_range (subnet_of home_address 24) ≡ ok (v4 first, v4 last))
    × IsRange
        (subnet_of home_address 24)
        (home_address / 2 ^ (32 - 24) * 2 ^ (32 - 24))
        (2 ^ (32 - 24))
        first
        last
pool_range-IsRange_example =
    pool_range-IsRange home_address 24 (omega arith) (omega arith) (omega arith)

pool_range-outside_example :
    (first last : ℕ) × (pool_range (subnet_of home_address 29) ≡ ok (v4 first, v4 last))
    × (contains (masked (subnet_of home_address 29)) (v4 last) ≡ false)
pool_range-outside_example = pool_range-outside home_address (omega arith)
