-- ===== src/Dhcp/Pool/Made.antt =====
-- The checks that a successful `NewPool` (internal/dhcp/pool.go) has passed.
use dns_desktop.Common.{
  ℕ, ◌+◌, ◌≤◌, ◌≡◌, refl, Bool, true, false, not, ◌||◌, null, arith, bytes_eq_instance, ltb, ok,
  if-err-eq-ok,
}
use dns_desktop.Net.{Addr, v4, addr_eq_instance, contains, masked, prefix_is_valid}
use dns_desktop.Dhcp.Pool.{Pool}
use dns_desktop.Dhcp.Pool.New.{
  PoolOptions, range_reversed, outside_subnet, too_large, empty_range, bad_subnet, max_pool_size,
  addr_distance, reserve_all, empty_pool, range, checked_pool, check_range, check_subnet, new_pool,
}
use dns_desktop.Dhcp.Pool.Invariant.{IsPool}
use dns_desktop.Dhcp.Pool.Start.{reserve_all-IsPool}

-- The checks that a successful `NewPool` has passed, and what it returns.
pub record IsMade (opts : PoolOptions) (p : Pool) : Type 0 where
  pub net : ℕ
  pub first : ℕ
  pub last : ℕ
  pub subnet_v4 : opts.subnet.addr ≡ v4 net
  pub valid : prefix_is_valid opts.subnet ≡ true
  pub first_v4 : opts.first ≡ v4 first
  pub last_v4 : opts.last ≡ v4 last
  pub ordered : first ≤ last
  pub first_inside : contains (masked opts.subnet) (v4 first) ≡ true
  pub last_inside : contains (masked opts.subnet) (v4 last) ≡ true
  pub small : addr_distance first last + 1 ≤ max_pool_size
  pub not_empty : null (range opts (masked opts.subnet) net first last) ≡ false
  pub made :
      reserve_all
        (ok (empty_pool opts (masked opts.subnet) (range opts (masked opts.subnet) net first last)))
        opts.reserved_list
      ≡ ok p

both_inside : (a b : Bool) → (not a || not b) ≡ false → a ≡ true
both_inside true b h = refl
both_inside false b h = cc

both_inside' : (a b : Bool) → (not a || not b) ≡ false → b ≡ true
both_inside' true true h = refl
both_inside' true false h = cc
both_inside' false b h = cc

IsMade-of_checked :
    (opts : PoolOptions) (net first last : ℕ) (p : Pool)
    → opts.subnet.addr ≡ v4 net
    → prefix_is_valid opts.subnet ≡ true
    → opts.first ≡ v4 first
    → opts.last ≡ v4 last
    → checked_pool opts (masked opts.subnet) net first last ≡ ok p
    → IsMade opts p
IsMade-of_checked opts net first last p e w ef el h =
    let (r, h₁) = if-err-eq-ok (ltb last first) range_reversed _ p h in
    let (c, h₂) = if-err-eq-ok _ outside_subnet _ p h₁ in
    let (z, h₃) = if-err-eq-ok _ too_large _ p h₂ in
    let (n, h₄) = if-err-eq-ok _ empty_range _ p h₃ in
    record {
      net = net;
      first = first;
      last = last;
      subnet_v4 = e;
      valid = w;
      first_v4 = ef;
      last_v4 = el;
      ordered = ground arith;
      first_inside =
          both_inside (contains (masked opts.subnet) (v4 first))
            (contains (masked opts.subnet) (v4 last)) c;
      last_inside =
          both_inside' (contains (masked opts.subnet) (v4 first))
            (contains (masked opts.subnet) (v4 last)) c;
      small = ground arith;
      not_empty = n;
      made = h₄;
    }

IsMade-of_range :
    (opts : PoolOptions) (net : ℕ) (first last : Addr) (p : Pool)
    → opts.subnet.addr ≡ v4 net
    → prefix_is_valid opts.subnet ≡ true
    → opts.first ≡ first
    → opts.last ≡ last
    → check_range opts (masked opts.subnet) net first last ≡ ok p
    → IsMade opts p
IsMade-of_range opts net (v4 first) (v4 last) p e w ef el h =
    IsMade-of_checked opts net first last p e w ef el h
IsMade-of_range opts net _ _ p e w ef el h = absurd (ground arith)

IsMade-of_subnet :
    (opts : PoolOptions) (net : Addr) (p : Pool)
    → opts.subnet.addr ≡ net
    → prefix_is_valid opts.subnet ≡ true
    → check_subnet opts net ≡ ok p
    → IsMade opts p
IsMade-of_subnet opts (v4 net) p e w h =
    IsMade-of_range opts net opts.first opts.last p e w refl refl h
IsMade-of_subnet opts _ p e w h = absurd (cc)

pub IsMade-of_new : (opts : PoolOptions) (p : Pool) → new_pool opts ≡ ok p → IsMade opts p
unfolding new_pool
IsMade-of_new opts p h =
    let (w, h₁) = if-err-eq-ok (not (prefix_is_valid opts.subnet)) bad_subnet _ p h in
    IsMade-of_subnet opts opts.subnet.addr p refl (ground arith) h₁

-- A pool that `NewPool` returns is well-formed, whatever its options.
pub new_pool-IsPool : (opts : PoolOptions) (p : Pool) → new_pool opts ≡ ok p → IsPool p
new_pool-IsPool opts p h =
    let m = IsMade-of_new opts p h in
    reserve_all-IsPool opts (masked opts.subnet) _ opts.reserved_list p m.made
