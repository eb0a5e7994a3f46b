-- ===== src/Dhcp/Pool/Others.antt =====
-- What the calls of internal/dhcp/pool.go leave alone: the live bindings of other clients.
use dns_desktop.Common.{
  ℕ, ◌≡◌, ◌≢◌, refl, sym, ap, ◌∙◌, inl, inr, Option, none, some, [], Bytes, null, ℕ_eq,
  bytes_eq_instance, Bool-cases,
}
use dns_desktop.Common.Dict.{lookup}
use dns_desktop.Net.{Addr, addr_eq_instance}
use dns_desktop.Dhcp.Pool.{
  State, free, offered, leased, declined, reserved, Entry, Pool, expire, entry_of_key,
}
use dns_desktop.Dhcp.Pool.Alloc.{offer, commit}
use dns_desktop.Dhcp.Pool.Return.{release, decline, free_entry, unquarantine, free_addr}
use dns_desktop.Dhcp.Pool.Query.{lookup_key, leases}
use dns_desktop.Dhcp.Pool.Run.{
  Call, offers, commits, releases, declines, frees, looks, reports, step,
}
use dns_desktop.Dhcp.Pool.Invariant.{IsPool, expire-IsPool}
use dns_desktop.Dhcp.Pool.Located.{IsLocated, lookup-IsLocated, entry_of_key-IsLocated}
use dns_desktop.Dhcp.Pool.Safety.{IsLive}
use dns_desktop.Dhcp.Pool.Bindings.{
  IsOwn, Binds, put-Binds, expire-Binds, expire-IsOwn, live_not_declined, offer_known-Binds,
  commit_entry-Binds, release_entry-Binds, decline_entry-Binds,
}

-- The client of a call is not the one of the key `k`.
abbrev pub IsStranger : Bytes → ℕ × Call → Type 0
IsStranger k (now, offers key req hw hostname) = k ≢ key
IsStranger k (now, commits key a hw hostname) = k ≢ key
IsStranger k (now, releases key a) = k ≢ key
IsStranger k (now, declines key a) = k ≢ key
IsStranger k _ = Unit

-- The key of the client that asks for an address does not point at another client's entry.
abbrev pub PointsAtOwn : Pool → ℕ × Call → Type 0
PointsAtOwn p (now, offers key req hw hostname) = IsOwn key (entry_of_key p key)
PointsAtOwn p (now, commits key a hw hostname) = IsOwn key (entry_of_key p key)
PointsAtOwn p _ = Unit

module _ (b : Addr) (x : Entry) (p : Pool) (now : ℕ) (v : IsPool p) (live : IsLive now x)
    (h : Binds b x p) where
  offer-Binds :
      (key : Bytes) (req : Addr) (hw hostname : Bytes)
      → x.key ≢ key
      → IsOwn key (entry_of_key p key)
      → Binds b x (offer p now key req hw hostname).0
  unfolding offer
  offer-Binds key req hw hostname other own = elim (Bool-cases (null key)) [
    | inl nobody ↦ rw nobody h
    | inr someone ↦ rw someone (
        offer_known-Binds b x (expire p now) now key hw hostname (expire-IsPool p now v) live other
          (expire-Binds b x p now live h) req (entry_of_key (expire p now) key)
          (entry_of_key-IsLocated (expire p now) key (expire-IsPool p now v)).0
          (expire-IsOwn p now key own))
  ]

  commit-Binds :
      (key : Bytes) (a : Addr) (hw hostname : Bytes)
      → x.key ≢ key
      → IsOwn key (entry_of_key p key)
      → Binds b x (commit p now key a hw hostname).0
  unfolding commit
  commit-Binds key a hw hostname other own = elim (Bool-cases (null key)) [
    | inl nobody ↦ rw nobody h
    | inr someone ↦ rw someone (
        commit_entry-Binds b x (expire p now) now key hw hostname (expire-IsPool p now v) live other
          (expire-Binds b x p now live h) (lookup a (expire p now).entries)
          (lookup-IsLocated (expire p now) a (expire-IsPool p now v)) (expire-IsOwn p now key own))
  ]

  free_entry-Binds : (o : Option Entry) → IsLocated p.entries o → Binds b x (free_entry p now o).0
  free_entry-Binds none l = h
  free_entry-Binds (some e) l = by_state e.state refl
    where
      by_state : (st : State) → e.state ≡ st → Binds b x (unquarantine p now st e).0
      by_state declined s =
          put-Binds b x p e (record e { state = free; freed_at = now }) l
            (λ same. live_not_declined now x live (sym (ap Entry.state same) ∙ s)) h
      by_state free s = h
      by_state offered s = h
      by_state leased s = h
      by_state reserved s = h

-- In a well-formed pool a live binding (a reservation, or a lease or an offer that has not ended)
-- is as before after any call of another client or of the administrator, if a client that asks for
-- an address has no key that points at another client's entry.
pub step_leaves_others :
    (b : Addr) (x : Entry) (p : Pool) (c : ℕ × Call)
    → IsPool p
    → lookup b p.entries ≡ some x
    → IsLive c.0 x
    → IsStranger x.key c
    → PointsAtOwn p c
    → lookup b (step p c).entries ≡ some x
unfolding step lookup_key leases release decline free_addr
step_leaves_others b x p (now, offers key req hw hostname) v h live other own =
    offer-Binds b x p now v live h key req hw hostname other own
step_leaves_others b x p (now, commits key a hw hostname) v h live other own =
    commit-Binds b x p now v live h key a hw hostname other own
step_leaves_others b x p (now, releases key a) v h live other own =
    release_entry-Binds b x p now key [] [] v live other h (lookup a p.entries)
      (lookup-IsLocated p a v)
step_leaves_others b x p (now, declines key a) v h live other own =
    decline_entry-Binds b x p now key [] [] v live other h a (lookup a p.entries) refl (v.entry a)
step_leaves_others b x p (now, frees a) v h live other own =
    free_entry-Binds b x p now v live h (lookup a p.entries) (lookup-IsLocated p a v)
step_leaves_others b x p (now, looks key) v h live other own = expire-Binds b x p now live h
step_leaves_others b x p (now, reports) v h live other own = expire-Binds b x p now live h
