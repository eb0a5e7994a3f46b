-- ===== src/Dhcp/Pool/Located.antt =====
-- The entries that the calls of internal/dhcp/pool.go find: each stands at its own address.
use dns_desktop.Common.{
  ℕ, ◌≡◌, refl, ap, ◌∙◌, subst, Bool, true, false, Option, none, some, List, [], ◌∷◌, Bytes, null,
  arith, ℕ_eq, bytes_eq_instance,
}
use dns_desktop.Common.Dict.{Dict, lookup}
use dns_desktop.Net.{Addr, addr_eq_instance}
use dns_desktop.Dhcp.Pool.{
  Entry, Pool, bound, put_bound, is_reserved, entry_at, entry_of_key, least_recently_freed, better,
}
use dns_desktop.Dhcp.Pool.Invariant.{
  StateOk, EntryOk, TargetOk, KeyOk, IsPool, KeepsReserved, put_bound-IsPool,
}

abbrev pub IsLocated : Dict Addr Entry → Option Entry → Type 0
IsLocated entries none = Unit
IsLocated entries (some e) = lookup e.addr entries ≡ some e

pub lookup-IsLocated : (p : Pool) (a : Addr) → IsPool p → IsLocated p.entries (lookup a p.entries)
lookup-IsLocated p a v = go (lookup a p.entries) refl (v.entry a)
  where
    go : (o : Option Entry) → lookup a p.entries ≡ o → EntryOk a o → IsLocated p.entries o
    go none e h = tt
    go (some x) e h = ap (λ b. lookup b p.entries) h.0 ∙ e

-- What a key points at, and that it is no other key's reservation.
abbrev pub IsMine : Bytes → Option Entry → Type 0
IsMine key none = Unit
IsMine key (some e) = is_reserved e.state ≡ true → e.key ≡ key

pub entry_of_key-IsLocated :
    (p : Pool) (key : Bytes)
    → IsPool p
    → IsLocated p.entries (entry_of_key p key) × IsMine key (entry_of_key p key)
unfolding entry_of_key
entry_of_key-IsLocated p key v = go (lookup key p.by_key) (v.keyed key)
  where
    mine : (o : Option Entry) → TargetOk key o → IsMine key o
    mine none h = tt
    mine (some e) h = h

    go :
        (o : Option Addr)
        → KeyOk p.entries key o
        → IsLocated p.entries (entry_at p o) × IsMine key (entry_at p o)
    go none h = (tt, tt)
    go (some a) h = (lookup-IsLocated p a v, mine (lookup a p.entries) h)

better-IsLocated :
    (entries : Dict Addr Entry) (best o : Option Entry)
    → IsLocated entries best
    → IsLocated entries o
    → IsLocated entries (better best o)
better-IsLocated entries best none hb ho = hb
better-IsLocated entries none (some e) hb ho = ground arith
better-IsLocated entries (some b) (some e) hb ho = ground arith

pub least_recently_freed-IsLocated :
    (p : Pool) (addrs : List Addr) (best : Option Entry)
    → IsPool p
    → IsLocated p.entries best
    → IsLocated p.entries (least_recently_freed p.entries addrs best)
unfolding least_recently_freed
least_recently_freed-IsLocated p [] best v h = h
least_recently_freed-IsLocated p (a ∷ addrs) best v h =
    least_recently_freed-IsLocated p addrs (better best (lookup a p.entries)) v
      (better-IsLocated p.entries best (lookup a p.entries) h (lookup-IsLocated p a v))

pub located-StateOk :
    (p : Pool) (e : Entry) → IsPool p → lookup e.addr p.entries ≡ some e → StateOk e.state e
located-StateOk p e v found = (subst (EntryOk e.addr) found (v.entry e.addr)).1

-- `bindLocked` on an entry that is there, for a client with a key: it stays or becomes reserved
-- only where it was, for the same key.
pub bound-IsPool :
    (p : Pool) (e : Entry) (key hw hostname : Bytes) (now : ℕ) (keep : Bool)
    → IsPool p
    → lookup e.addr p.entries ≡ some e
    → null key ≡ false
    → (keep ≡ true → (is_reserved e.state ≡ true) × (key ≡ e.key))
    → IsPool (put_bound p (bound p e key hw hostname now keep) key)
bound-IsPool p e key hw hostname now true v found named mine =
    put_bound-IsPool p e (bound p e key hw hostname now true) v key found (named, refl) mine' refl
  where
    mine' : KeepsReserved e (bound p e key hw hostname now true)
    mine' r = mine refl
bound-IsPool p e key hw hostname now false v found named mine =
    put_bound-IsPool p e (bound p e key hw hostname now false) v key found
      (named, omega (arith, v.offer_pos)) (λ r. cc) refl
