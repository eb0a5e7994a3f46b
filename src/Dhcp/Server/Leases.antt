-- ===== src/Dhcp/Server/Leases.antt =====
-- The acknowledgements of `handleRequest` and `handleInform` (internal/dhcp/server.go).
use dns_desktop.Common.{
  ℕ, ◌+◌, ◌≡◌, ◌∙◌, refl, sym, subst, false, ◌||◌, Option, none, some, [], ◌∷◌, Bytes, arith, ◌==◌,
  ℕ_eq, ltb, inl, inr, Bool-cases, Result, ok, err, if◌then◌else◌,
}
use dns_desktop.Net.{Addr, addr_eq_instance}
use dns_desktop.Dhcp.Types.{
  ack, nak, RequestKind, unknown, selecting, init_reboot, renewing, option_requested_ip,
  option_server_id, option_message_type, option_relay_agent_info, inform, boot_request,
  option_lease_time, option_renewal_time, option_rebinding_time,
}
use dns_desktop.Dhcp.Options.{get, addr}
use dns_desktop.Dhcp.Message.{Message}
use dns_desktop.Dhcp.Message.Names.{host_name}
use dns_desktop.Dhcp.Message.Fields.{message_type, client_key, request_kind, reply}
use dns_desktop.Dhcp.Pool.{Lease, Pool, PoolError, not_ours, is_reserved}
use dns_desktop.Dhcp.Pool.Alloc.{commit}
use dns_desktop.Dhcp.Pool.Query.{lookup_addr}
use dns_desktop.Dhcp.Pool.Invariant.{IsPool}
use dns_desktop.Dhcp.Pool.Safety.{commit_granted}
use dns_desktop.Dhcp.Server.{Server, Reply}
use dns_desktop.Dhcp.Server.Read.{is_config, get-fill_no_lease}
use dns_desktop.Dhcp.Server.Answers.{get-reply_type, get-reply-none, reply-Kept}
use dns_desktop.Dhcp.Server.Refusals.{NoLease, get-nak_other}
use dns_desktop.Dhcp.Server.Handle.{
  addr_or_none, handle_kind, handle_request, handle_inform, handle, answered, refused_kind,
  request_address, nak_message, informed_reply,
}

-- An acknowledgement tells of a lease of the client, which the pool gives to nobody else until it
-- ends, and which the hook has been told of.
abbrev AckOk : Server → ℕ → Message → ℕ → Server × Option Reply → Type 0
AckOk s now m t (s', none) = Unit
AckOk s now m t (s', some r) =
    get r.message.options option_message_type ≡ some (5 ∷ [])
    → (l : Lease) × (r.message.yiaddr ≡ l.addr)
      × (l.key ≡ client_key m)
      × (s'.bindings ≡ l ∷ s.bindings)
      × (lookup_addr s'.pool t l.addr
          ≡ (if is_reserved l.state || ltb t (now + s.pool.lease) then some l else none))

nak_is_no_ack :
    (s : Server) (m : Message) (reason : Bytes)
    → ¬ (get (nak_message s m reason).options option_message_type ≡ some (5 ∷ []))
nak_is_no_ack s m reason h = ground (
  arith,
  sym (get-reply_type m nak) ∙ (sym (get-nak_other s m reason option_message_type refl refl) ∙ h),
)

module _ (error_text : Pool → PoolError → Addr → Bytes) where
  refused_kind-AckOk :
      (s : Server) (now : ℕ) (m : Message) (t : ℕ) (p : Pool) (reason : Bytes) (kind : RequestKind)
      (e : PoolError)
      → AckOk s now m t (refused_kind (record s { pool = p }) m reason kind e)
  refused_kind-AckOk s now m t p reason renewing not_ours = tt
  refused_kind-AckOk s now m t p reason renewing _ = λ h. absurd (nak_is_no_ack s m reason h)
  refused_kind-AckOk s now m t p reason _ e = λ h. absurd (nak_is_no_ack s m reason h)

  request_address-AckOk :
      (s : Server) (now : ℕ) (m : Message) (kind : RequestKind) (want : Addr) (t : ℕ)
      → IsPool s.pool
      → AckOk s now m t (request_address error_text s now m kind want)
  request_address-AckOk s now m kind want t v =
      go (commit s.pool now (client_key m) want m.chaddr (host_name m)) refl
    where
      go :
          (r : Pool × Result PoolError Lease)
          → commit s.pool now (client_key m) want m.chaddr (host_name m) ≡ r
          → AckOk s now m t (answered error_text s m kind want r)
      go (p, err e) eq = refused_kind-AckOk s now m t p (error_text p e want) kind e
      go (p, ok l) eq =
          let (at_want, mine, current) =
            commit_granted s.pool now (client_key m) want m.chaddr (host_name m) p l v eq t in
          λ h. (
            l,
            refl,
            mine,
            refl,
            subst
                (λ a.
                  lookup_addr p t a
                  ≡ (if is_reserved l.state || ltb t (now + s.pool.lease) then some l else none))
                (sym at_want) current,
          )

  handle_kind-AckOk :
      (s : Server) (now later : ℕ) (m : Message) (kind : RequestKind) (t : ℕ)
      → IsPool s.pool
      → AckOk s now m t (handle_kind error_text s now later m kind)
  handle_kind-AckOk s now later m selecting t v =
      elim (Bool-cases (addr_or_none (addr m.options option_server_id) == s.opts.server_id)) [
        | inl ours ↦ rw ours (
            request_address-AckOk s now m selecting
              (addr_or_none (addr m.options option_requested_ip)) t v)
        | inr other ↦ rw other tt
      ]
  handle_kind-AckOk s now later m init_reboot t v =
      request_address-AckOk s now m init_reboot (addr_or_none (addr m.options option_requested_ip))
        t v
  handle_kind-AckOk s now later m renewing t v = request_address-AckOk s now m renewing m.ciaddr t v
  handle_kind-AckOk s now later m unknown t v = tt

  handle_request-AckOk :
      (s : Server) (now later : ℕ) (m : Message) (t : ℕ)
      → IsPool s.pool
      → AckOk s now m t (handle_request error_text s now later m)
  unfolding handle_request
  handle_request-AckOk s now later m t v = handle_kind-AckOk s now later m (request_kind m) t v

  -- Where `handleRequest` on a well-formed pool replies with an ACK, the address in it is that of a
  -- lease of the client: the hook has got this lease, and the pool that results says that the client
  -- holds the address at every time before the lease time has passed, and that nobody does from then
  -- on; or at every time, if the address is reserved.
  pub handle_request_binds :
      (s : Server) (now later : ℕ) (m : Message) (t : ℕ) (s' : Server) (r : Reply)
      → IsPool s.pool
      → handle_request error_text s now later m ≡ (s', some r)
      → get r.message.options option_message_type ≡ some (5 ∷ [])
      → (l : Lease) × (r.message.yiaddr ≡ l.addr)
        × (l.key ≡ client_key m)
        × (s'.bindings ≡ l ∷ s.bindings)
        × (lookup_addr s'.pool t l.addr
            ≡ (if is_reserved l.state || ltb t (now + s.pool.lease) then some l else none))
  handle_request_binds s now later m t s' r v replied is_ack =
      subst (AckOk s now m t) replied (handle_request-AckOk s now later m t v) is_ack

  -- A BOOTREQUEST of type INFORM is answered with the reply of `handleInform`, which has no address
  -- and none of the three lease times, and nothing is allocated: the pool is as before.
  pub handle_inform-NoLease :
      (s : Server) (now later : ℕ) (m : Message)
      → m.op ≡ boot_request
      → message_type m ≡ some inform
      → ((handle error_text s now later m).0.pool ≡ s.pool)
        × ((handle error_text s now later m).1 ≡ some (informed_reply s m))
        × NoLease (informed_reply s m).message
  unfolding handle handle_inform
  handle_inform-NoLease s now later m asks h = (
    rw (asks, h) refl,
    rw (asks, h) refl,
    (
      (reply-Kept m ack).6,
      none_of option_lease_time refl refl refl refl,
      none_of option_renewal_time refl refl refl refl,
      none_of option_rebinding_time refl refl refl refl,
    ),
  )
    where
      none_of :
          (d : ℕ)
          → is_config d ≡ false
          → (option_server_id == d) ≡ false
          → (option_relay_agent_info == d) ≡ false
          → (option_message_type == d) ≡ false
          → get (informed_reply s m).message.options d ≡ none
      none_of d h1 h2 h3 h4 =
          get-fill_no_lease s.opts s.pool.subnet (reply m ack).options d h1 h2
          ∙ get-reply-none m ack d h3 h4
