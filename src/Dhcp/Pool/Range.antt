-- ===== src/Dhcp/Pool/Range.antt =====
-- What a successful `NewPool` (internal/dhcp/pool.go) guarantees of the pool.
use dns_desktop.Common.{
  ℕ, zero, suc, ◌+◌, ◌-◌, ◌/◌, ◌^◌, ◌≤◌, ◌≡◌, ◌≢◌, refl, sym, ◌∙◌, subst, inl, inr, Bool, true,
  false, ◌||◌, Option, none, some, List, [], ◌∷◌, null, any, arith, ◌==◌, bytes_eq_instance,
  Bool-cases, ne_of_false, Result, ok, err, if-err-eq-ok, All,
}
use dns_desktop.Common.Dict.{lookup}
use dns_desktop.Net.{
  Addr, no_addr, v4, v6, addr_eq_instance, contains, same_net, Prefix, bits, masked,
}
use dns_desktop.Dhcp.Pool.{Pool, Reservation, Entry, blank}
use dns_desktop.Dhcp.Pool.New.{
  PoolOptions, NewError, no_client_key, max_pool_size, addr_distance, broadcast_of, addrs_from,
  not_skipped, reserve, reserve_all, reserve_at, reserve_entry, range, new_pool,
}
use dns_desktop.Dhcp.Pool.Made.{IsMade, IsMade-of_new}

-- The addresses that `reserve` leaves in the range.
reserve-addrs :
    (p q : Pool) (r : Reservation)
    → reserve p r ≡ ok q
    → (q.addrs ≡ p.addrs) × (q.subnet ≡ p.subnet)
unfolding reserve
reserve-addrs p q r h =
    go (lookup r.addr p.entries) (if-err-eq-ok (null r.key) no_client_key _ q h).1
  where
    at : (e : Entry) → reserve_entry p r e ≡ ok q → (q.addrs ≡ p.addrs) × (q.subnet ≡ p.subnet)
    at e h = ground arith

    go : (o : Option Entry) → reserve_at p r o ≡ ok q → (q.addrs ≡ p.addrs) × (q.subnet ≡ p.subnet)
    go none h = elim (Bool-cases (contains p.subnet r.addr)) [
      | inl e ↦ at (blank r.addr) (rw e at h)
      | inr e ↦ absurd (ground arith)
    ]
    go (some e) h = at e h

reserve_all-addrs :
    (p q : Pool) (rs : List Reservation)
    → reserve_all (ok p) rs ≡ ok q
    → (q.addrs ≡ p.addrs) × (q.subnet ≡ p.subnet)
unfolding reserve_all
reserve_all-addrs p q [] h = ground arith
reserve_all-addrs p q (r ∷ rs) h = go (λ p'. reserve_all-addrs p' q rs) (reserve p r) refl h
  where
    go :
        ((p' : Pool)
          → reserve_all (ok p') rs ≡ ok q
          → (q.addrs ≡ p'.addrs) × (q.subnet ≡ p'.subnet))
        → (x : Result NewError Pool) → reserve p r ≡ x
        → reserve_all x rs ≡ ok q
        → (q.addrs ≡ p.addrs) × (q.subnet ≡ p.subnet)
    go ih (err e) made h = absurd (cc)
    go ih (ok p') made h =
        let (a, s) = reserve-addrs p p' r made in let (a', s') = ih p' h in (a' ∙ a, s' ∙ s)

All-addrs_from :
    (P : Addr → Type 0) (rounds a : ℕ)
    → ((k : ℕ) → a ≤ k → k ≤ a + rounds → P (v4 k))
    → All P (addrs_from rounds a)
unfolding addrs_from
All-addrs_from P zero a h = (h a (omega arith) (omega arith), tt)
All-addrs_from P (suc rounds) a h = (
  h a (omega arith) (omega arith),
  All-addrs_from P rounds (a + 1) (λ k lo hi. h k (omega arith) (omega arith)),
)

All-not_skipped :
    (P : Addr → Type 0) (skip addrs : List Addr)
    → All P addrs
    → All (λ a. P a × (any (λ s. s == a) skip ≡ false)) (not_skipped skip addrs)
unfolding not_skipped
All-not_skipped P skip [] h = tt
All-not_skipped P skip (a ∷ addrs) h = elim (Bool-cases (any (λ s. s == a) skip)) [
  | inl e ↦ rw e (All-not_skipped P skip addrs h.1)
  | inr e ↦ rw e ((h.0, e), All-not_skipped P skip addrs h.1)
]

-- Division by the size of a block keeps the order.
div_between : (d first a last : ℕ) → first ≤ a → a ≤ last → first / d ≡ last / d → first / d ≡ a / d
div_between d first a last lo hi e = grind arith

same_net_between :
    (n : ℕ) (net : Addr) (first a last : ℕ)
    → first ≤ a
    → a ≤ last
    → same_net n net (v4 first) ≡ true
    → same_net n net (v4 last) ≡ true
    → same_net n net (v4 a) ≡ true
same_net_between n no_addr first a last lo hi f l = f
same_net_between n (v6 x) first a last lo hi f l = f
same_net_between n (v4 x) first a last lo hi f l =
    ground (arith, div_between (2 ^ (32 - n)) first a last lo hi)

contains_between :
    (p : Prefix) (first a last : ℕ)
    → first ≤ a
    → a ≤ last
    → contains p (v4 first) ≡ true
    → contains p (v4 last) ≡ true
    → contains p (v4 a) ≡ true
contains_between p first a last lo hi f l =
    ground (arith, same_net_between (bits p) p.addr first a last lo hi)

-- An address that the pool may hand out: of the subnet, and neither its network address, nor its
-- broadcast address, nor an excluded one.
pub record IsAllocatable (opts : PoolOptions) (net : ℕ) (a : Addr) : Type 0 where
  pub inside : contains (masked opts.subnet) a ≡ true
  pub not_network : (masked opts.subnet).addr ≢ a
  pub not_broadcast : v4 (broadcast_of net (bits (masked opts.subnet))) ≢ a
  pub not_excluded : any (λ x. x == a) opts.excluded ≡ false

or_false : (a b : Bool) → (a || b) ≡ false → (a ≡ false) × (b ≡ false)
or_false a b h = ground arith

IsAllocatable-of_kept :
    (opts : PoolOptions) (net : ℕ) (a : Addr)
    → contains (masked opts.subnet) a ≡ true
    → any
        (λ s. s == a)
        ((masked opts.subnet).addr
          ∷ v4 (broadcast_of net (bits (masked opts.subnet)))
          ∷ opts.excluded)
      ≡ false
    → IsAllocatable opts net a
IsAllocatable-of_kept opts net a h k =
    let (n, k') = or_false ((masked opts.subnet).addr == a) _ k in
    let (b, k'') = or_false (v4 (broadcast_of net (bits (masked opts.subnet))) == a) _ k' in
    record {
      inside = h;
      not_network = ne_of_false (masked opts.subnet).addr a n;
      not_broadcast = ne_of_false (v4 (broadcast_of net (bits (masked opts.subnet)))) a b;
      not_excluded = k'';
    }

All-map : (P Q : Addr → Type 0) → ((a : Addr) → P a → Q a) → (l : List Addr) → All P l → All Q l
All-map P Q f [] h = tt
All-map P Q f (a ∷ l) h = (f a h.0, All-map P Q f l h.1)

addr_distance_lem :
    (a b : ℕ) → a ≤ b → addr_distance a b + 1 ≤ max_pool_size → a + addr_distance a b ≡ b
unfolding addr_distance
addr_distance_lem a b h k = ground arith

range-IsAllocatable :
    (opts : PoolOptions) (p : Pool) (m : IsMade opts p)
    → All (IsAllocatable opts m.net) (range opts (masked opts.subnet) m.net m.first m.last)
range-IsAllocatable opts p m =
    All-map _ (IsAllocatable opts m.net) (λ a h. IsAllocatable-of_kept opts m.net a h.0 h.1)
      (range opts (masked opts.subnet) m.net m.first m.last)
      (All-not_skipped (λ a. contains (masked opts.subnet) a ≡ true) _ _
        (All-addrs_from (λ a. contains (masked opts.subnet) a ≡ true) (addr_distance m.first m.last)
          m.first
          λ k lo hi.
            contains_between (masked opts.subnet) m.first k m.last lo
              (omega (arith, addr_distance_lem m.first m.last m.ordered m.small)) m.first_inside
              m.last_inside))

v4-injective : {a b : ℕ} → v4 a ≡ v4 b → a ≡ b
v4-injective h = ground arith

-- What `NewPool` returns serves the masked subnet, and every address that it may hand out
-- dynamically lies in it and is neither its network address, nor its broadcast address, nor one of
-- the excluded addresses. The subnet of the options is of IPv4.
pub new_pool-IsAllocatable :
    (opts : PoolOptions) (p : Pool) (net : ℕ)
    → opts.subnet.addr ≡ v4 net
    → new_pool opts ≡ ok p
    → (p.subnet ≡ masked opts.subnet) × All (IsAllocatable opts net) p.addrs
new_pool-IsAllocatable opts p net e h =
    let m = IsMade-of_new opts p h in
    let (a, s) = reserve_all-addrs _ p opts.reserved_list m.made in
    (
      s,
      rw a (
          subst
            (λ n. All (IsAllocatable opts n) (range opts (masked opts.subnet) m.net m.first m.last))
            (v4-injective (sym m.subnet_v4 ∙ e)) (range-IsAllocatable opts p m)),
    )
