-- ===== src/Dhcp/Server/Answers.antt =====
-- The replies of `Handle` (internal/dhcp/server.go), whatever the message: what they echo, and what
-- they say of the server.
use dns_desktop.Common.{Bool, if◌then◌else◌}
use dns_desktop.Common.{
  ℕ, ◌≡◌, ◌∙◌, refl, ap, true, false, Option, none, some, [], ◌∷◌, Bytes, ◌==◌, ℕ_eq, inl, inr,
  Bool-cases, Result, ok, err,
}
use dns_desktop.Net.{Addr, no_addr, v4, be32, addr_eq_instance}
use dns_desktop.Dhcp.Types.{
  MessageType, discover, offer, request, decline, ack, nak, release, inform, force_renew,
  other_type, RequestKind, unknown, selecting, init_reboot, renewing, option_requested_ip,
  option_server_id, option_message, option_message_type, option_relay_agent_info, boot_request,
  boot_reply, type_code,
}
use dns_desktop.Dhcp.Options.{Options, get, set, addr, set_addr, set_string, set_uint8}
use dns_desktop.Dhcp.Message.{Message}
use dns_desktop.Dhcp.Message.Names.{host_name}
use dns_desktop.Dhcp.Message.Fields.{
  message_type, client_key, is_set, request_kind, reply, set_message_type, echo_relay, skeleton,
}
use dns_desktop.Dhcp.Pool.{Lease, Pool, PoolError, not_ours}
use dns_desktop.Dhcp.Pool.Alloc.{commit}
use dns_desktop.Dhcp.Pool.Alloc
use dns_desktop.Dhcp.Server.{
  Server, Reply, server_port, destination, nak_destination, inform_destination,
}
use dns_desktop.Dhcp.Server.Fill.{fill}
use dns_desktop.Dhcp.Server.Read.{
  get-set_other, get-set_string_other, get-set_addr_self, get-set_addr_other, get-fill_server_id,
  get-fill_other,
}
use dns_desktop.Dhcp.Server.Handle.{
  addr_or_none, discovered, handle_discover, handle_kind, handle_request, handle_inform,
  handle_type, handle_typed, handle, answered, refused_kind, request_address, reply_to,
  offered_reply, ack_message, nak_message, informed_reply,
}

get-echo_relay :
    (o : Option Bytes) (r : Message) (d : ℕ)
    → (option_relay_agent_info == d) ≡ false
    → get (echo_relay o r).options d ≡ get r.options d
get-echo_relay none r d h = refl
get-echo_relay (some relay) r d h = get-set_other r.options option_relay_agent_info d relay h

-- The skeleton has the message type.
pub get-reply_type :
    (m : Message) (t : MessageType)
    → get (reply m t).options option_message_type ≡ some (type_code t ∷ [])
unfolding reply set_message_type set_uint8 set get
get-reply_type m t =
    get-echo_relay (get m.options option_relay_agent_info) (set_message_type (skeleton m) t)
      option_message_type refl

get-reply_relay :
    (m : Message) (t : MessageType)
    → get (reply m t).options option_relay_agent_info ≡ get m.options option_relay_agent_info
unfolding reply set_message_type set_uint8 set get
get-reply_relay m t = go (get m.options option_relay_agent_info)
  where
    go :
        (o : Option Bytes)
        → get (echo_relay o (set_message_type (skeleton m) t)).options option_relay_agent_info ≡ o
    go none = refl
    go (some relay) = refl

-- No other option.
pub get-reply-none :
    (m : Message) (t : MessageType) (d : ℕ)
    → (option_relay_agent_info == d) ≡ false
    → (option_message_type == d) ≡ false
    → get (reply m t).options d ≡ none
unfolding reply set_message_type set_uint8 set get
get-reply-none m t d h h' =
    get-echo_relay (get m.options option_relay_agent_info) (set_message_type (skeleton m) t) d h
    ∙ rw h' refl

-- The shapes of a reply: none, an offer, an acknowledgement with a lease, a refusal, and an
-- acknowledgement without a lease.
pub data Shape (s : Server) (m : Message) : Option Reply → Type 0 where
  silent : Shape s m none
  offering : (l : Lease) → Shape s m (some (offered_reply s m l))
  binding : (l : Lease) → Shape s m (some (reply_to (ack_message s m l) (destination m)))
  refusing :
      (reason : Bytes) → Shape s m (some (reply_to (nak_message s m reason) (nak_destination m)))
  informing : Shape s m (some (informed_reply s m))

discovered-Shape :
    (s : Server) (later : ℕ) (m : Message) (r : Pool × Result PoolError Lease)
    → Shape s m (discovered s later m r).1
discovered-Shape s later m (p, err e) = silent
discovered-Shape s later m (p, ok l) = offering l

refused_kind-Shape :
    (s : Server) (p : Pool) (m : Message) (reason : Bytes) (kind : RequestKind) (e : PoolError)
    → Shape s m (refused_kind (record s { pool = p }) m reason kind e).1
refused_kind-Shape s p m reason renewing not_ours = silent
refused_kind-Shape s p m reason renewing _ = refusing reason
refused_kind-Shape s p m reason _ e = refusing reason

module _ (error_text : Pool → PoolError → Addr → Bytes) where
  answered-Shape :
      (s : Server) (m : Message) (kind : RequestKind) (want : Addr)
      (r : Pool × Result PoolError Lease)
      → Shape s m (answered error_text s m kind want r).1
  answered-Shape s m kind want (p, err e) = refused_kind-Shape s p m (error_text p e want) kind e
  answered-Shape s m kind want (p, ok l) = binding l

  request_address-Shape :
      (s : Server) (now : ℕ) (m : Message) (kind : RequestKind) (want : Addr)
      → Shape s m (request_address error_text s now m kind want).1
  request_address-Shape s now m kind want =
      answered-Shape s m kind want (commit s.pool now (client_key m) want m.chaddr (host_name m))

  handle_kind-Shape :
      (s : Server) (now later : ℕ) (m : Message) (kind : RequestKind)
      → Shape s m (handle_kind error_text s now later m kind).1
  handle_kind-Shape s now later m selecting =
      elim (Bool-cases (addr_or_none (addr m.options option_server_id) == s.opts.server_id)) [
        | inl ours ↦ rw ours (
            request_address-Shape s now m selecting
              (addr_or_none (addr m.options option_requested_ip)))
        | inr other ↦ rw other silent
      ]
  handle_kind-Shape s now later m init_reboot =
      request_address-Shape s now m init_reboot (addr_or_none (addr m.options option_requested_ip))
  handle_kind-Shape s now later m renewing = request_address-Shape s now m renewing m.ciaddr
  handle_kind-Shape s now later m unknown = silent

  handle_type-Shape :
      (s : Server) (now later : ℕ) (m : Message) (t : MessageType)
      → Shape s m (handle_type error_text s now later m t).1
  unfolding handle_discover handle_request handle_inform
  handle_type-Shape s now later m discover = discovered-Shape s later m (
      Alloc.offer s.pool now (client_key m) (addr_or_none (addr m.options option_requested_ip))
        m.chaddr (host_name m))
  handle_type-Shape s now later m request = handle_kind-Shape s now later m (request_kind m)
  handle_type-Shape s now later m inform = informing
  handle_type-Shape s now later m decline = silent
  handle_type-Shape s now later m release = silent
  handle_type-Shape s now later m offer = silent
  handle_type-Shape s now later m ack = silent
  handle_type-Shape s now later m nak = silent
  handle_type-Shape s now later m force_renew = silent
  handle_type-Shape s now later m (other_type n) = silent

  handle_typed-Shape :
      (s : Server) (now later : ℕ) (m : Message) (o : Option MessageType)
      → Shape s m (handle_typed error_text s now later m o).1
  handle_typed-Shape s now later m none = silent
  handle_typed-Shape s now later m (some t) = handle_type-Shape s now later m t

  pub handle-Shape :
      (s : Server) (now later : ℕ) (m : Message) → Shape s m (handle error_text s now later m).1
  unfolding handle
  handle-Shape s now later m = elim (Bool-cases (m.op == boot_request)) [
    | inl asks ↦ rw asks (handle_typed-Shape s now later m (message_type m))
    | inr other ↦ rw other silent
  ]

-- What every reply has of the message and of the server.
abbrev pub Echoes : ℕ → Message → Option Reply → Type 0
Echoes id m none = Unit
Echoes id m (some r) =
    (r.message.op ≡ boot_reply)
    × (r.message.xid ≡ m.xid)
    × (r.message.chaddr ≡ m.chaddr)
    × (r.message.giaddr ≡ m.giaddr)
    × (r.message.flags ≡ m.flags)
    × (get r.message.options option_server_id ≡ some (be32 id))
    × (get r.message.options option_relay_agent_info ≡ get m.options option_relay_agent_info)
    × (r.to ≡ (if is_set m.giaddr then m.giaddr else r.to))
    × (r.port ≡ (if is_set m.giaddr then server_port else r.port))

destination-relayed :
    (m : Message) → is_set m.giaddr ≡ true → destination m ≡ (m.giaddr, server_port)
unfolding destination
destination-relayed m h = rw h refl

nak_destination-relayed :
    (m : Message) → is_set m.giaddr ≡ true → nak_destination m ≡ (m.giaddr, server_port)
unfolding nak_destination
nak_destination-relayed m h = rw h refl

inform_destination-relayed :
    (m : Message) → is_set m.giaddr ≡ true → inform_destination m ≡ (m.giaddr, server_port)
unfolding inform_destination
inform_destination-relayed m h = rw h refl

relayed-if :
    (b : Bool) (d e : Addr × ℕ)
    → (b ≡ true → d ≡ e)
    → (d.0 ≡ (if b then e.0 else d.0)) × (d.1 ≡ (if b then e.1 else d.1))
relayed-if true d e h = (ap (λ x. x.0) (h refl), ap (λ x. x.1) (h refl))
relayed-if false d e h = (refl, refl)

abbrev pub Kept : Message → Message → Type 0
Kept m r =
    (r.op ≡ boot_reply)
    × (r.xid ≡ m.xid)
    × (r.chaddr ≡ m.chaddr)
    × (r.giaddr ≡ m.giaddr)
    × (r.flags ≡ m.flags)
    × (r.ciaddr ≡ no_addr)
    × (r.yiaddr ≡ no_addr)

pub reply-Kept : (m : Message) (t : MessageType) → Kept m (reply m t)
unfolding reply set_message_type
reply-Kept m t = go (get m.options option_relay_agent_info)
  where
    go : (o : Option Bytes) → Kept m (echo_relay o (set_message_type (skeleton m) t))
    go none = (refl, refl, refl, refl, refl, refl, refl)
    go (some relay) = (refl, refl, refl, refl, refl, refl, refl)

Echoes-of-reply :
    (id : ℕ) (m : Message) (t : MessageType) (y c : Addr) (o : Options) (d : Addr × ℕ)
    → get o option_server_id ≡ some (be32 id)
    → get o option_relay_agent_info ≡ get (reply m t).options option_relay_agent_info
    → (is_set m.giaddr ≡ true → d ≡ (m.giaddr, server_port))
    → Echoes id m (some (reply_to (record (reply m t) { yiaddr = y; ciaddr = c; options = o }) d))
Echoes-of-reply id m t y c o d h h' to =
    let k = reply-Kept m t in
    (
      k.0,
      k.1,
      k.2,
      k.3,
      k.4,
      h,
      h' ∙ get-reply_relay m t,
      (relayed-if (is_set m.giaddr) d (m.giaddr, server_port) to).0,
      (relayed-if (is_set m.giaddr) d (m.giaddr, server_port) to).1,
    )

-- Every reply echoes the transaction, the hardware address, the relay and its information and the
-- flags of the message, names the server, and goes to the relay if there is one.
pub Shape-Echoes :
    (s : Server) (m : Message) (id : ℕ) (r : Option Reply)
    → s.opts.server_id ≡ v4 id
    → Shape s m r
    → Echoes id m r
Shape-Echoes s m id _ h silent = tt
Shape-Echoes s m id _ h (offering l) =
    Echoes-of-reply id m offer l.addr (reply m offer).ciaddr
      (fill s.opts s.pool.subnet (reply m offer).options s.pool.lease) (destination m)
      (get-fill_server_id s.opts s.pool.subnet (reply m offer).options s.pool.lease id h)
      (get-fill_other s.opts s.pool.subnet (reply m offer).options s.pool.lease
        option_relay_agent_info refl refl refl refl refl)
      (destination-relayed m)
Shape-Echoes s m id _ h (binding l) =
    Echoes-of-reply id m ack l.addr m.ciaddr
      (fill s.opts s.pool.subnet (reply m ack).options s.pool.lease) (destination m)
      (get-fill_server_id s.opts s.pool.subnet (reply m ack).options s.pool.lease id h)
      (get-fill_other s.opts s.pool.subnet (reply m ack).options s.pool.lease
        option_relay_agent_info refl refl refl refl refl)
      (destination-relayed m)
Shape-Echoes s m id _ h informing =
    Echoes-of-reply id m ack (reply m ack).yiaddr m.ciaddr
      (fill s.opts s.pool.subnet (reply m ack).options 0) (inform_destination m)
      (get-fill_server_id s.opts s.pool.subnet (reply m ack).options 0 id h)
      (get-fill_other s.opts s.pool.subnet (reply m ack).options 0 option_relay_agent_info refl refl
        refl refl refl)
      (inform_destination-relayed m)
Shape-Echoes s m id _ h (refusing reason) =
    let o = (reply m nak).options in
    let o1 = set_addr o option_server_id s.opts.server_id in
    Echoes-of-reply id m nak (reply m nak).yiaddr no_addr (set_string o1 option_message reason)
      (nak_destination m)
      (get-set_string_other o1 option_message option_server_id reason refl
        ∙ get-set_addr_self o option_server_id s.opts.server_id id h)
      (get-set_string_other o1 option_message option_relay_agent_info reason refl
        ∙ get-set_addr_other o option_server_id option_relay_agent_info s.opts.server_id refl)
      (nak_destination-relayed m)

-- Whatever the message, if there is a reply to it by a server with an IPv4 identifier, the reply
-- echoes the transaction, the hardware address, the relay's address and its information and the
-- flags of the message, carries that identifier, and goes to the relay's port 67 if there is one.
pub handle-Echoes :
    (error_text : Pool → PoolError → Addr → Bytes) (s : Server) (now later : ℕ) (m : Message)
    (id : ℕ)
    → s.opts.server_id ≡ v4 id
    → Echoes id m (handle error_text s now later m).1
handle-Echoes error_text s now later m id h =
    Shape-Echoes s m id (handle error_text s now later m).1 h
      (handle-Shape error_text s now later m)
