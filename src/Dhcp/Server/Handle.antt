-- ===== src/Dhcp/Server/Handle.antt =====
-- `Handle` and its handlers (internal/dhcp/server.go). `now` is the clock's reading at the first
-- call of the pool, and `later` at the second one where there are two. The text of an error is
-- what package fmt makes of it, so it is a parameter.
use dns_desktop.Common.{
  ℕ, not, Option, none, some, ◌∷◌, Bytes, Result, ok, err, ◌==◌, ℕ_eq, if◌then◌else◌,
}
use dns_desktop.Net.{Addr, no_addr, addr_eq_instance}
use dns_desktop.Dhcp.Types.{
  boot_request, MessageType, discover, offer, request, decline, ack, nak, release, inform,
  RequestKind, unknown, selecting, init_reboot, renewing, option_requested_ip, option_server_id,
  option_message,
}
use dns_desktop.Dhcp.Options.{addr, set_addr, set_string}
use dns_desktop.Dhcp.Message.{Message}
use dns_desktop.Dhcp.Message.Names.{host_name}
use dns_desktop.Dhcp.Message.Fields.{message_type, client_key, is_set, request_kind, reply}
use dns_desktop.Dhcp.Pool.{State, offered, Lease, Pool, PoolError, not_ours}
use dns_desktop.Dhcp.Pool.Alloc.{commit}
use dns_desktop.Dhcp.Pool.Query.{lookup_key, stats}
use dns_desktop.Dhcp.Server.{
  Server, count, Reply, Destination, destination, nak_destination, inform_destination,
}
use dns_desktop.Dhcp.Server.Fill.{fill}
use dns_desktop.Dhcp.Pool.Alloc
use dns_desktop.Dhcp.Pool.Return

abbrev pub ignore : Server → Server × Option Reply
ignore s = (record s { stats = record s.stats { ignored = count s.stats.ignored } }, none)

abbrev pub reply_to : Message → Destination → Reply
reply_to m d = record { message = m; to = d.0; port = d.1 }

-- The address of an option, and the zero address where the option is missing or malformed.
abbrev pub addr_or_none : Option Addr → Addr
addr_or_none none = no_addr
addr_or_none (some a) = a

-- `handleDiscover`
abbrev pub offered_reply : Server → Message → Lease → Reply
offered_reply s m lease =
    let r = reply m offer in
    reply_to
      (record r { yiaddr = lease.addr; options = fill s.opts s.pool.subnet r.options s.pool.lease })
      (destination m)

abbrev pub discovered : Server → ℕ → Message → Pool × Result PoolError Lease → Server × Option Reply
discovered s later m (p, err e) = (record s { pool = (stats p later).0 }, none)
discovered s later m (p, ok lease) = (
  record s { pool = p; stats = record s.stats { offers = count s.stats.offers } },
  some (offered_reply s m lease),
)

unfoldable pub handle_discover : Server → ℕ → ℕ → Message → Server × Option Reply
unfolding addr client_key host_name reply fill destination stats Alloc.offer
handle_discover s now later m = discovered s later m (
    Alloc.offer s.pool now (client_key m) (addr_or_none (addr m.options option_requested_ip))
      m.chaddr (host_name m))

-- A client that selected another server: its offer is dropped.
abbrev pub drop_in_state : Pool → ℕ → Bytes → Lease → State → Pool
drop_in_state p later key l offered = Return.release p later key l.addr
drop_in_state p later key l _ = p

abbrev pub drop_offer : Pool → ℕ → Bytes → Option Lease → Pool
drop_offer p later key none = p
drop_offer p later key (some l) = drop_in_state p later key l l.state

unfoldable pub other_server : Server → ℕ → ℕ → Bytes → Server
unfolding lookup_key Return.release
other_server s now later key =
    let (p, l) = lookup_key s.pool now key in record s { pool = drop_offer p later key l }

-- The refusal that names the reason.
abbrev pub nak_message : Server → Message → Bytes → Message
nak_message s m reason =
    let r = reply m nak in
    record r {
      ciaddr = no_addr;
      options =
          set_string (set_addr r.options option_server_id s.opts.server_id) option_message reason;
    }

abbrev pub ack_message : Server → Message → Lease → Message
ack_message s m lease =
    let r = reply m ack in
    record r {
      yiaddr = lease.addr;
      ciaddr = m.ciaddr;
      options = fill s.opts s.pool.subnet r.options s.pool.lease;
    }

abbrev pub refused : Server → Message → Bytes → Server × Option Reply
refused s m reason = (
  record s { stats = record s.stats { naks = count s.stats.naks } },
  some (reply_to (nak_message s m reason) (nak_destination m)),
)

-- A client that renews an address outside the pool gets no answer.
abbrev pub refused_kind : Server → Message → Bytes → RequestKind → PoolError → Server × Option Reply
refused_kind s m reason renewing not_ours = ignore s
refused_kind s m reason _ _ = refused s m reason

-- `handleInform`: the configuration, and no lease.
abbrev pub informed_reply : Server → Message → Reply
informed_reply s m =
    let r = reply m ack in
    reply_to (record r { ciaddr = m.ciaddr; options = fill s.opts s.pool.subnet r.options 0 })
      (inform_destination m)

unfoldable pub handle_inform : Server → Message → Server × Option Reply
unfolding reply fill inform_destination
handle_inform s m = (
  record s { stats = record s.stats { informs = count s.stats.informs } },
  some (informed_reply s m),
)

abbrev pub decline_requested : Server → ℕ → Message → Option Addr → Pool
decline_requested s now m none = s.pool
decline_requested s now m (some a) = Return.decline s.pool now (client_key m) a

module _ (error_text : Pool → PoolError → Addr → Bytes) where
  abbrev pub answered :
      Server → Message → RequestKind → Addr → Pool × Result PoolError Lease → Server × Option Reply
  answered s m kind want (p, err e) =
      refused_kind (record s { pool = p }) m (error_text p e want) kind e
  answered s m kind want (p, ok lease) = (
    record s {
      pool = p;
      stats = record s.stats { acks = count s.stats.acks };
      bindings = lease ∷ s.bindings;
    },
    some (reply_to (ack_message s m lease) (destination m)),
  )

  abbrev pub request_address : Server → ℕ → Message → RequestKind → Addr → Server × Option Reply
  request_address s now m kind want =
      answered s m kind want (commit s.pool now (client_key m) want m.chaddr (host_name m))

  -- `handleRequest`, by the kind of the request.
  abbrev pub handle_kind : Server → ℕ → ℕ → Message → RequestKind → Server × Option Reply
  handle_kind s now later m selecting =
      if not (addr_or_none (addr m.options option_server_id) == s.opts.server_id)
      then ignore (other_server s now later (client_key m))
      else request_address s now m selecting (addr_or_none (addr m.options option_requested_ip))
  handle_kind s now later m init_reboot =
      request_address s now m init_reboot (addr_or_none (addr m.options option_requested_ip))
  handle_kind s now later m renewing = request_address s now m renewing m.ciaddr
  handle_kind s now later m unknown = ignore s

  unfoldable pub handle_request : Server → ℕ → ℕ → Message → Server × Option Reply
  unfolding addr set_addr set_string client_key host_name reply fill destination nak_destination
      request_kind commit other_server
  handle_request s now later m = handle_kind s now later m (request_kind m)

  -- The cases of `Handle`, by the message type.
  abbrev pub handle_type : Server → ℕ → ℕ → Message → MessageType → Server × Option Reply
  handle_type s now later m discover = handle_discover s now later m
  handle_type s now later m request = handle_request s now later m
  handle_type s now later m decline = (
    record s {
      pool = decline_requested s now m (addr m.options option_requested_ip);
      stats = record s.stats { declines = count s.stats.declines };
    },
    none,
  )
  handle_type s now later m release = (
    record s {
      pool = if is_set m.ciaddr then Return.release s.pool now (client_key m) m.ciaddr else s.pool;
      stats = record s.stats { releases = count s.stats.releases };
    },
    none,
  )
  handle_type s now later m inform = handle_inform s m
  handle_type s now later m _ = ignore s

  abbrev pub handle_typed : Server → ℕ → ℕ → Message → Option MessageType → Server × Option Reply
  handle_typed s now later m none = ignore s
  handle_typed s now later m (some t) = handle_type s now later m t

  unfoldable pub handle : Server → ℕ → ℕ → Message → Server × Option Reply
  unfolding message_type handle_discover handle_request handle_inform client_key addr Return.decline
      Return.release
  handle s now later m =
      if not (m.op == boot_request) then ignore s else handle_typed s now later m (message_type m)
