-- ===== src/Dhcp/Server/History.antt =====
-- What the server does to its pool (internal/dhcp/server.go) is a history of the pool's calls.
use dns_desktop.Common.{
  ℕ, ◌≡◌, refl, Bool, true, false, Option, none, some, List, [], ◌∷◌, Bytes, arith, ◌==◌, ℕ_eq, inl,
  inr, Bool-cases, subst, sym, Result, ok, err, if◌then◌else◌,
}
use dns_desktop.Net.{Addr, addr_eq_instance}
use dns_desktop.Dhcp.Types.{
  MessageType, discover, offer, request, decline, ack, nak, release, inform, force_renew,
  other_type, RequestKind, unknown, selecting, init_reboot, renewing, option_requested_ip,
  option_server_id, boot_request,
}
use dns_desktop.Dhcp.Options.{addr}
use dns_desktop.Dhcp.Message.{Message, Error, unpack}
use dns_desktop.Dhcp.Message.Names.{host_name}
use dns_desktop.Dhcp.Message.Fields.{message_type, client_key, is_set, request_kind}
use dns_desktop.Dhcp.Pool.{State, free, offered, leased, declined, reserved, Lease, Pool, PoolError}
use dns_desktop.Dhcp.Pool.Alloc.{commit}
use dns_desktop.Dhcp.Pool.Query.{lookup_key, stats}
use dns_desktop.Dhcp.Pool.Run.{Call, offers, commits, releases, declines, looks, reports, step, run}
use dns_desktop.Dhcp.Pool.Invariant.{IsPool}
use dns_desktop.Dhcp.Pool.Preserve.{run-IsPool}
use dns_desktop.Dhcp.Server.{Server, Reply, count}
use dns_desktop.Dhcp.Server.Handle.{
  addr_or_none, discovered, handle_discover, drop_in_state, drop_offer, decline_requested,
  other_server, handle_kind, handle_request, handle_inform, handle_type, handle_typed, handle,
  answered, refused_kind, request_address,
}
use dns_desktop.Dhcp.Server.Wire.{Datagram, serve_one, serve, decoded, sent, not_request}
use dns_desktop.Dhcp.Pool.Alloc
use dns_desktop.Dhcp.Pool.Return

-- A pool that some calls lead to from another.
abbrev pub Reaches : Pool → Pool → Type 0
Reaches p q = (cs : List (ℕ × Call)) × (q ≡ run p cs)

stays : (p : Pool) → Reaches p p
unfolding run
stays p = ([], refl)

one : (p : Pool) (c : ℕ × Call) → Reaches p (step p c)
unfolding run
one p c = (c ∷ [], refl)

two : (p : Pool) (c d : ℕ × Call) → Reaches p (step (step p c) d)
unfolding run
two p c d = (c ∷ d ∷ [], refl)

discovered-Reaches :
    (s : Server) (now later : ℕ) (m : Message) (key : Bytes) (req : Addr) (hw hostname : Bytes)
    → Reaches s.pool (discovered s later m (Alloc.offer s.pool now key req hw hostname)).0.pool
unfolding step Alloc.offer stats
discovered-Reaches s now later m key req hw hostname =
    go (Alloc.offer s.pool now key req hw hostname) (one s.pool (now, offers key req hw hostname))
      (two s.pool (now, offers key req hw hostname) (later, reports))
  where
    go :
        (r : Pool × Result PoolError Lease)
        → Reaches s.pool r.0
        → Reaches s.pool (stats r.0 later).0
        → Reaches s.pool (discovered s later m r).0.pool
    go (p, err e) h1 h2 = h2
    go (p, ok l) h1 h2 = h1

handle_discover-Reaches :
    (s : Server) (now later : ℕ) (m : Message)
    → Reaches s.pool (handle_discover s now later m).0.pool
unfolding handle_discover
handle_discover-Reaches s now later m =
    discovered-Reaches s now later m (client_key m)
      (addr_or_none (addr m.options option_requested_ip)) m.chaddr (host_name m)

other_server-Reaches :
    (s : Server) (now later : ℕ) (key : Bytes) → Reaches s.pool (other_server s now later key).pool
unfolding other_server step lookup_key Return.release
other_server-Reaches s now later key =
    go (lookup_key s.pool now key).1 (one s.pool (now, looks key))
      (λ a. two s.pool (now, looks key) (later, releases key a))
  where
    in_state :
        (l : Lease) (st : State)
        → Reaches s.pool (lookup_key s.pool now key).0
        → ((a : Addr) → Reaches s.pool (Return.release (lookup_key s.pool now key).0 later key a))
        → Reaches s.pool (drop_in_state (lookup_key s.pool now key).0 later key l st)
    in_state l offered h1 h2 = h2 l.addr
    in_state l free h1 h2 = h1
    in_state l leased h1 h2 = h1
    in_state l declined h1 h2 = h1
    in_state l reserved h1 h2 = h1

    go :
        (o : Option Lease)
        → Reaches s.pool (lookup_key s.pool now key).0
        → ((a : Addr) → Reaches s.pool (Return.release (lookup_key s.pool now key).0 later key a))
        → Reaches s.pool (drop_offer (lookup_key s.pool now key).0 later key o)
    go none h1 h2 = h1
    go (some l) h1 h2 = in_state l l.state h1 h2

module _ (error_text : Pool → PoolError → Addr → Bytes) where
  refused_kind-pool :
      (s : Server) (m : Message) (reason : Bytes) (kind : RequestKind) (e : PoolError)
      → (refused_kind s m reason kind e).0.pool ≡ s.pool
  refused_kind-pool s m reason kind e = ground arith

  answered-pool :
      (s : Server) (m : Message) (kind : RequestKind) (want : Addr)
      (r : Pool × Result PoolError Lease)
      → (answered error_text s m kind want r).0.pool ≡ r.0
  answered-pool s m kind want (p, err e) =
      refused_kind-pool (record s { pool = p }) m (error_text p e want) kind e
  answered-pool s m kind want (p, ok l) = refl

  request_address-Reaches :
      (s : Server) (now : ℕ) (m : Message) (kind : RequestKind) (want : Addr)
      → Reaches s.pool (request_address error_text s now m kind want).0.pool
  unfolding step
  request_address-Reaches s now m kind want =
      subst (Reaches s.pool)
        (sym (
          answered-pool s m kind want
            (commit s.pool now (client_key m) want m.chaddr (host_name m))))
        (one s.pool (now, commits (client_key m) want m.chaddr (host_name m)))

  handle_kind-Reaches :
      (s : Server) (now later : ℕ) (m : Message) (kind : RequestKind)
      → Reaches s.pool (handle_kind error_text s now later m kind).0.pool
  handle_kind-Reaches s now later m selecting =
      elim (Bool-cases (addr_or_none (addr m.options option_server_id) == s.opts.server_id)) [
        | inl ours ↦ rw ours (
            request_address-Reaches s now m selecting
              (addr_or_none (addr m.options option_requested_ip)))
        | inr other ↦ rw other (other_server-Reaches s now later (client_key m))
      ]
  handle_kind-Reaches s now later m init_reboot =
      request_address-Reaches s now m init_reboot
        (addr_or_none (addr m.options option_requested_ip))
  handle_kind-Reaches s now later m renewing = request_address-Reaches s now m renewing m.ciaddr
  handle_kind-Reaches s now later m unknown = stays s.pool

  decline_requested-Reaches :
      (s : Server) (now : ℕ) (m : Message) (o : Option Addr)
      → Reaches s.pool (decline_requested s now m o)
  unfolding step
  decline_requested-Reaches s now m none = stays s.pool
  decline_requested-Reaches s now m (some a) = one s.pool (now, declines (client_key m) a)

  release_if-Reaches :
      (p : Pool) (now : ℕ) (key : Bytes) (a : Addr) (b : Bool)
      → Reaches p (if b then Return.release p now key a else p)
  unfolding step
  release_if-Reaches p now key a true = one p (now, releases key a)
  release_if-Reaches p now key a false = stays p

  handle_type-Reaches :
      (s : Server) (now later : ℕ) (m : Message) (t : MessageType)
      → Reaches s.pool (handle_type error_text s now later m t).0.pool
  unfolding handle_request handle_inform
  handle_type-Reaches s now later m discover = handle_discover-Reaches s now later m
  handle_type-Reaches s now later m request = handle_kind-Reaches s now later m (request_kind m)
  handle_type-Reaches s now later m decline =
      decline_requested-Reaches s now m (addr m.options option_requested_ip)
  handle_type-Reaches s now later m release =
      release_if-Reaches s.pool now (client_key m) m.ciaddr (is_set m.ciaddr)
  handle_type-Reaches s now later m inform = stays s.pool
  handle_type-Reaches s now later m offer = stays s.pool
  handle_type-Reaches s now later m ack = stays s.pool
  handle_type-Reaches s now later m nak = stays s.pool
  handle_type-Reaches s now later m force_renew = stays s.pool
  handle_type-Reaches s now later m (other_type n) = stays s.pool

  handle_typed-Reaches :
      (s : Server) (now later : ℕ) (m : Message) (o : Option MessageType)
      → Reaches s.pool (handle_typed error_text s now later m o).0.pool
  handle_typed-Reaches s now later m none = stays s.pool
  handle_typed-Reaches s now later m (some t) = handle_type-Reaches s now later m t

  -- Whatever the message, the pool after `Handle` is one that the pool's own calls lead to.
  pub handle-Reaches :
      (s : Server) (now later : ℕ) (m : Message)
      → Reaches s.pool (handle error_text s now later m).0.pool
  unfolding handle
  handle-Reaches s now later m = elim (Bool-cases (m.op == boot_request)) [
    | inl asks ↦ rw asks (handle_typed-Reaches s now later m (message_type m))
    | inr other ↦ rw other (stays s.pool)
  ]

  module _ (takes : Datagram → Bool) where
    sent-pool : (r : Server × Option Reply) → (sent error_text takes r).0.pool ≡ r.0.pool
    sent-pool (s, none) = refl
    sent-pool (s, some r) = ground arith

    decoded-Reaches :
        (s : Server) (now later : ℕ) (r : Result Error Message)
        → Reaches s.pool (decoded error_text takes s now later r).0.pool
    decoded-Reaches s now later (err e) = stays s.pool
    decoded-Reaches s now later (ok m) =
        subst (Reaches s.pool) (sym (sent-pool (handle error_text s now later m)))
          (handle-Reaches s now later m)

    serve_one-Reaches :
        (s : Server) (now later : ℕ) (wire : Bytes)
        → Reaches s.pool (serve_one error_text takes s now later wire).0.pool
    unfolding serve_one
    serve_one-Reaches s now later wire = elim (Bool-cases (not_request wire)) [
      | inl reply ↦ rw reply (stays s.pool)
      | inr asks ↦ rw asks (decoded-Reaches s now later (unpack wire))
    ]

    -- Whatever datagrams arrive, and at whatever readings of the clock, the well-formed pool of a
    -- server stays well-formed.
    pub serve-IsPool :
        (s : Server) (arrivals : List (ℕ × ℕ × Bytes))
        → IsPool s.pool
        → IsPool (serve error_text takes s arrivals).pool
    unfolding serve
    serve-IsPool s [] v = v
    serve-IsPool s ((now, later, wire) ∷ more) v =
        let s1 = record s { stats = record s.stats { received = count s.stats.received } } in
        let (cs, e) = serve_one-Reaches s1 now later wire in
        serve-IsPool (serve_one error_text takes s1 now later wire).0 more
          (subst IsPool (sym e) (run-IsPool s.pool cs v))
