-- ===== src/App/Bounds.antt =====
-- Where the range of `poolRange` (internal/app/gateway.go) lies.
use native.Mathlib.Omega.{pow_step}
use native.Mathlib.Nat.{pow-le-pow_right}
use dns_desktop.Common.{
  zero, ℕ, suc, ◌+◌, ◌-◌, ◌*◌, ◌/◌, ◌%◌, ◌^◌, ◌≤◌, ◌<◌, ◌≡◌, refl, ap, ◌∙◌, sym, true, false, ok,
  arith, ltb, if◌then◌else◌,
}
use dns_desktop.Net.{v4, Prefix, masked, contains}
use dns_desktop.App.{max_pool, add32, sub32, range_in, pool_range}

block_div : (q h r : ℕ) → r < h → (q * h + r) / h ≡ q
block_div q h r lt = grind arith

block_end : (a h k : ℕ) → 0 < h → h * k ≡ 2 ^ 32 → a < 2 ^ 32 → a / h * h + h ≤ 2 ^ 32
block_end a h k pos e lt = grind arith

range_in_block :
    (v h : ℕ)
    → 16 ≤ h
    → h < 2 ^ 32
    → v + h ≤ 2 ^ 32
    → range_in v h ≡ (v4 (v + 10), v4 (if ltb max_pool (h - 11) then v + 4105 else v + h - 2))
range_in_block v h lo hi fits = ground arith

pow_add : (k n : ℕ) → 2 ^ (k + n) ≡ 2 ^ k * 2 ^ n
pow_add zero n = grind arith
pow_add (suc k) n =
    ap (λ j. 2 ^ j) (suc_add k n) ∙ (pow_step 2 (k + n) ∙ grind (arith, pow_add k n, pow_step 2 k))
  where
    suc_add : (k n : ℕ) → suc k + n ≡ suc (k + n)
    suc_add k n = omega arith

pow_split : (n : ℕ) → n ≤ 32 → 2 ^ (32 - n) * 2 ^ n ≡ 2 ^ 32
pow_split n h = sym (pow_add (32 - n) n) ∙ ap (λ j. 2 ^ j) (back n h)
  where
    back : (n : ℕ) → n ≤ 32 → 32 - n + n ≡ 32
    back n h = omega arith

pow_large : (n : ℕ) → n ≤ 28 → 16 ≤ 2 ^ (32 - n)
pow_large n h = pow-le-pow_right {n = 2} (omega arith) {i = 4} {j = 32 - n} (omega arith)

pow_small : (n : ℕ) → 1 ≤ n → n ≤ 32 → 2 ^ (32 - n) < 2 ^ 32
pow_small n lo hi =
    omega (arith, pow-le-pow_right {n = 2} (omega arith) {i = 32 - n} {j = 31} (omega arith))

-- The subnet of an address and a length.
abbrev pub subnet_of : ℕ → ℕ → Prefix
subnet_of a n = record { addr = v4 a; bits_plus_one = n + 1 }

-- What lies in a range that a pool can be made of.
pub record IsRange (subnet : Prefix) (base size first last : ℕ) : Type 0 where
  pub ordered : first ≤ last
  pub not_more : last - first < max_pool
  pub above_network : base < first
  pub below_broadcast : last + 1 < base + size
  pub first_inside : contains (masked subnet) (v4 first) ≡ true
  pub last_inside : contains (masked subnet) (v4 last) ≡ true

div_in_block : (q h x : ℕ) → q * h ≤ x → x < q * h + h → x / h ≡ q
div_in_block q h x lo hi =
    ap (λ y. y / h) (back (q * h) x lo) ∙ block_div q h (x - q * h) (omega arith)
  where
    back : (b x : ℕ) → b ≤ x → x ≡ b + (x - b)
    back b x le = omega arith

bits-subnet_of : (n : ℕ) → n + 1 - 1 ≡ n
bits-subnet_of n = omega arith

valid-subnet_of : (n : ℕ) → ltb 0 (n + 1) ≡ true
valid-subnet_of n = ground arith

contains-block :
    (a n x : ℕ)
    → a / 2 ^ (32 - n) * 2 ^ (32 - n) ≤ x
    → x < a / 2 ^ (32 - n) * 2 ^ (32 - n) + 2 ^ (32 - n)
    → contains (masked (subnet_of a n)) (v4 x) ≡ true
contains-block a n x lo hi =
    rw (valid-subnet_of n, bits-subnet_of n)
      (ground (
        arith,
        div_in_block (a / 2 ^ (32 - n)) (2 ^ (32 - n)) x lo hi,
        div_in_block (a / 2 ^ (32 - n)) (2 ^ (32 - n)) (a / 2 ^ (32 - n) * 2 ^ (32 - n))
            (omega arith) (omega arith),
      ))

small_test : (n : ℕ) → n ≤ 28 → ltb 29 n ≡ false
small_test n h = ground arith

pool_range-subnet_of :
    (a n : ℕ)
    → n ≤ 28
    → pool_range (subnet_of a n)
      ≡ ok (range_in (a / 2 ^ (32 - n) * 2 ^ (32 - n)) (2 ^ (32 - n) % 2 ^ 32))
unfolding pool_range
pool_range-subnet_of a n hi = rw (valid-subnet_of n, bits-subnet_of n, small_test n hi) refl

mod_small : (h : ℕ) → h < 2 ^ 32 → h % 2 ^ 32 ≡ h
mod_small h lt = omega arith

-- Eight addresses: the range would end before it begins, and the difference wraps around.
wraps :
    (v : ℕ)
    → v + 8 ≤ 2 ^ 32
    → range_in v 8 ≡ (v4 (add32 v 10), v4 (sub32 (add32 (add32 v 10) max_pool) 1))
wraps v fits = ground arith

-- The last address that is handed out.
abbrev pub last_of : ℕ → ℕ → ℕ
last_of v h = if ltb max_pool (h - 11) then v + 4105 else v + h - 2

last_of-bounds :
    (v h : ℕ)
    → 16 ≤ h
    → (v + 10 ≤ last_of v h) × (last_of v h - (v + 10) < max_pool) × (last_of v h + 1 < v + h)
last_of-bounds v h lo = ground arith

-- On a subnet of IPv4 with a length of 1 to 28, `poolRange` returns a range whose first address is
-- not after its last one, of at most 4096 addresses, which lies in the subnet, above its network
-- address and below its broadcast address.
pub pool_range-IsRange :
    (a n : ℕ)
    → a < 2 ^ 32
    → 1 ≤ n
    → n ≤ 28
    → (first last : ℕ) × (pool_range (subnet_of a n) ≡ ok (v4 first, v4 last))
      × IsRange (subnet_of a n) (a / 2 ^ (32 - n) * 2 ^ (32 - n)) (2 ^ (32 - n)) first last
pool_range-IsRange a n wide lo hi =
    let h = 2 ^ (32 - n) in
    let v = a / h * h in
    let big = pow_large n hi in
    let small = pow_small n lo (omega (arith, hi)) in
    let fits = block_end a h (2 ^ n) (omega (arith, big)) (pow_split n (omega (arith, hi))) wide in
    let (ordered, few, below) = last_of-bounds v h big in
    (
      v + 10,
      last_of v h,
      pool_range-subnet_of a n hi
          ∙ (ap (λ k. ok (range_in v k)) (mod_small h small)
              ∙ ap ok (range_in_block v h big small fits)),
      record {
        ordered = ordered;
        not_more = few;
        above_network = omega arith;
        below_broadcast = below;
        first_inside = contains-block a n (v + 10) (omega arith) (omega (arith, big));
        last_inside =
            contains-block a n (last_of v h) (omega (arith, ordered)) (omega (arith, below));
      },
    )

far_quotient : (q l : ℕ) → q * 8 + 8 ≤ 2 ^ 32 → l ≡ (q * 8 + 4105) % 2 ^ 32 → ¬ (l / 8 ≡ q)
far_quotient q l fits e h = omega arith

wrapped_last :
    (v : ℕ) → v + 8 ≤ 2 ^ 32 → sub32 (add32 (add32 v 10) max_pool) 1 ≡ (v + 4105) % 2 ^ 32
wrapped_last v fits = omega arith

other_block :
    (a : ℕ)
    → a < 2 ^ 32
    → contains (masked (subnet_of a 29)) (v4 (sub32 (add32 (add32 (a / 8 * 8) 10) max_pool) 1))
      ≡ false
other_block a wide =
    let fits = block_end a 8 (2 ^ 29) (omega arith) refl wide in
    ground (
      arith,
      far_quotient (a / 8) (sub32 (add32 (add32 (a / 8 * 8) 10) max_pool) 1) fits
          (wrapped_last (a / 8 * 8) fits),
    )

-- On a subnet of IPv4 of length 29, which `poolRange` does not refuse as too small, the range that
-- it returns ends outside the subnet.
pub pool_range-outside :
    (a : ℕ)
    → a < 2 ^ 32
    → (first last : ℕ) × (pool_range (subnet_of a 29) ≡ ok (v4 first, v4 last))
      × (contains (masked (subnet_of a 29)) (v4 last) ≡ false)
unfolding pool_range
pool_range-outside a wide =
    let first = add32 (a / 8 * 8) 10 in
    let last = sub32 (add32 first max_pool) 1 in
    (first, last, ap ok (wraps (a / 8 * 8) (omega arith)), other_block a wide)
