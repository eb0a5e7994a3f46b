-- ===== src/Dhcp/Pool/Choice.antt =====
-- `leastRecentlyFreedLocked` of internal/dhcp/pool.go: the choice of an address for a new client.
use dns_desktop.Common.Elems.{elem}
use dns_desktop.Common.{
  inl, inr, refl, subst, ◌&&◌, Bool, true, ◌||◌, ◌==◌, eq_true, if◌then◌else◌, ◌⊎◌, ◌≤◌, ◌≡◌, false,
  Option, none, some, List, [], ◌∷◌, arith,
}
use dns_desktop.Common.Dict.{Dict, lookup}
use dns_desktop.Net.{Addr, addr_eq_instance}
use dns_desktop.Dhcp.Pool.{
  State, free, offered, leased, reserved, declined, earlier, Entry, least_recently_freed, better,
  is_free,
}

-- No free entry of this kind was freed before the best one, and there is one if there is a best one.
abbrev pub NotBefore : Option Entry → Option Entry → Type 0
NotBefore best none = Unit
NotBefore none (some x) = is_free x.state ≡ false
NotBefore (some e) (some x) = (is_free x.state ≡ false) ⊎ (e.freed_at ≤ x.freed_at)

better-NotBefore : (best o : Option Entry) → NotBefore (better best o) o
better-NotBefore best none = tt
better-NotBefore none (some x) = ground arith
better-NotBefore (some e) (some x) = ground arith

better-NotBefore_kept : (best o y : Option Entry) → NotBefore best y → NotBefore (better best o) y
better-NotBefore_kept best o none h = tt
better-NotBefore_kept best none (some y) h = h
better-NotBefore_kept none (some x) (some y) h = ground arith
better-NotBefore_kept (some e) (some x) (some y) h = ground arith

abbrev pub AllNotBefore : Dict Addr Entry → List Addr → Option Entry → Type 0
AllNotBefore entries [] best = Unit
AllNotBefore entries (a ∷ addrs) best =
    NotBefore best (lookup a entries) × AllNotBefore entries addrs best

least_recently_freed-kept :
    (entries : Dict Addr Entry) (addrs : List Addr) (best y : Option Entry)
    → NotBefore best y
    → NotBefore (least_recently_freed entries addrs best) y
unfolding least_recently_freed
least_recently_freed-kept entries [] best y h = h
least_recently_freed-kept entries (a ∷ addrs) best y h =
    least_recently_freed-kept entries addrs (better best (lookup a entries)) y
      (better-NotBefore_kept best (lookup a entries) y h)

least_recently_freed-AllNotBefore :
    (entries : Dict Addr Entry) (addrs : List Addr) (best : Option Entry)
    → AllNotBefore entries addrs (least_recently_freed entries addrs best)
unfolding least_recently_freed
least_recently_freed-AllNotBefore entries [] best = tt
least_recently_freed-AllNotBefore entries (a ∷ addrs) best = (
  least_recently_freed-kept entries addrs (better best (lookup a entries)) (lookup a entries)
      (better-NotBefore best (lookup a entries)),
  least_recently_freed-AllNotBefore entries addrs (better best (lookup a entries)),
)

abbrev pub IsFree? : Option Entry → Type 0
IsFree? none = Unit
IsFree? (some e) = e.state ≡ free

better-IsFree? : (best o : Option Entry) → IsFree? best → IsFree? (better best o)
better-IsFree? best none h = h
better-IsFree? none (some x) h = ground arith
better-IsFree? (some e) (some x) h = ground arith

pub least_recently_freed-IsFree? :
    (entries : Dict Addr Entry) (addrs : List Addr) (best : Option Entry)
    → IsFree? best
    → IsFree? (least_recently_freed entries addrs best)
unfolding least_recently_freed
least_recently_freed-IsFree? entries [] best h = h
least_recently_freed-IsFree? entries (a ∷ addrs) best h =
    least_recently_freed-IsFree? entries addrs (better best (lookup a entries))
      (better-IsFree? best (lookup a entries) h)

-- What is chosen is the best so far, or a free entry of the list of addresses.
abbrev pub IsChoice : Dict Addr Entry → List Addr → Option Entry → Option Entry → Type 0
IsChoice entries addrs best none = Unit
IsChoice entries addrs best (some e) =
    (best ≡ some e)
    ⊎ ((a : Addr) × (elem a addrs ≡ true) × (lookup a entries ≡ some e) × (e.state ≡ free))

some_inj : {x y : Entry} → some x ≡ some y → x ≡ y
some_inj h = cc

free_and : (s : State) (c : Bool) → (is_free s && c) ≡ true → s ≡ free
free_and free c h = refl
free_and offered c h = cc
free_and leased c h = cc
free_and reserved c h = cc
free_and declined c h = cc

better_lem :
    (best o : Option Entry) (e : Entry)
    → better best o ≡ some e
    → (best ≡ some e) ⊎ ((o ≡ some e) × (e.state ≡ free))
better_lem best none e h = inl h
better_lem best (some x) e h = by_test (is_free x.state && earlier best x) refl h
  where
    by_test :
        (b : Bool)
        → (is_free x.state && earlier best x) ≡ b
        → (if b then some x else best) ≡ some e
        → (best ≡ some e) ⊎ ((some x ≡ some e) × (e.state ≡ free))
    by_test true f k =
        let same = some_inj k in
        inr (k, subst (λ y. y.state ≡ free) same (free_and x.state (earlier best x) f))
    by_test false f k = inl k

IsChoice-further :
    (entries : Dict Addr Entry) (a : Addr) (addrs : List Addr) (best o : Option Entry)
    → IsChoice entries addrs (better best (lookup a entries)) o
    → IsChoice entries (a ∷ addrs) best o
unfolding elem
IsChoice-further entries a addrs best none h = tt
IsChoice-further entries a addrs best (some e) (inl h) =
    elim (better_lem best (lookup a entries) e h) [
      | inl same ↦ inl same
      | inr (found, is_free) ↦ inr (a, rw (eq_true a) refl, found, is_free)
    ]
IsChoice-further entries a addrs best (some e) (inr (b, there, found, is_free)) =
    inr (b, rw there (or_true (a == b)), found, is_free)
  where
    or_true : (c : Bool) → (c || true) ≡ true
    or_true true = refl
    or_true false = refl

least_recently_freed-IsChoice :
    (entries : Dict Addr Entry) (addrs : List Addr) (best : Option Entry)
    → IsChoice entries addrs best (least_recently_freed entries addrs best)
unfolding least_recently_freed
least_recently_freed-IsChoice entries [] none = tt
least_recently_freed-IsChoice entries [] (some e) = inl refl
least_recently_freed-IsChoice entries (a ∷ addrs) best =
    IsChoice-further entries a addrs best
      (least_recently_freed entries addrs (better best (lookup a entries)))
      (least_recently_freed-IsChoice entries addrs (better best (lookup a entries)))

-- What is chosen is the entry of one of the addresses, and free; no free entry of the addresses was freed
-- before it, and where nothing is chosen, none of them is free.
abbrev pub IsLeastRecent : Dict Addr Entry → List Addr → Option Entry → Type 0
IsLeastRecent entries addrs none = AllNotBefore entries addrs none
IsLeastRecent entries addrs (some e) =
    ((a : Addr) × (elem a addrs ≡ true) × (lookup a entries ≡ some e) × (e.state ≡ free))
    × AllNotBefore entries addrs (some e)

-- The choice of leastRecentlyFreedLocked among the addresses of the range is the entry of one of them in
-- the pool, and free, and no free entry of the range was freed before it; and where nothing is chosen,
-- no entry of the range is free.
pub least_recently_freed_lem :
    (entries : Dict Addr Entry) (addrs : List Addr)
    → IsLeastRecent entries addrs (least_recently_freed entries addrs none)
least_recently_freed_lem entries addrs =
    together (least_recently_freed entries addrs none)
      (least_recently_freed-IsChoice entries addrs none)
      (least_recently_freed-AllNotBefore entries addrs none)
  where
    together :
        (o : Option Entry)
        → IsChoice entries addrs none o
        → AllNotBefore entries addrs o
        → IsLeastRecent entries addrs o
    together none c h = h
    together (some e) (inl c) h = cc
    together (some e) (inr c) h = (c, h)
