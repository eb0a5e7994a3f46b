-- ===== src/Dhcp/Tests/Servers.antt =====
-- The server (internal/dhcp/server.go) in front of a pool with one free address.
use dns_desktop.Dhcp.Options.{set_uint8}
use dns_desktop.Dhcp.Pool.{expire_entry}
use dns_desktop.Common.Dict.{map_values}
use dns_desktop.Common.{arith}
use dns_desktop.Common.{
  none, Option, ◌||◌, ltb, if◌then◌else◌, ◌+◌, ◌*◌, ◌/◌, ◌≤◌, ℕ, ◌≡◌, refl, Bool, true, List, [],
  ◌∷◌, Bytes, some,
}
use dns_desktop.Common.Int.{pos}
use dns_desktop.Common.Dict.{lookup, insert}
use dns_desktop.Net.{Addr, no_addr, v4, be32}
use dns_desktop.Dhcp.Types.{boot_request, option_message_type, option_requested_ip}
use dns_desktop.Dhcp.Options.{DhcpOption, Options, get, uint8, addr, second}
use dns_desktop.Dhcp.Message.{Message}
use dns_desktop.Dhcp.Message.Fields.{message_type, client_key, request_kind}
use dns_desktop.Dhcp.Pool.{Pool, PoolError, Lease, is_reserved}
use dns_desktop.Dhcp.Pool.Query.{lookup_addr}
use dns_desktop.Dhcp.Pool.New.{new_pool}
use dns_desktop.Dhcp.Pool.Invariant.{IsPool}
use dns_desktop.Dhcp.Pool.Made.{new_pool-IsPool}
use dns_desktop.Dhcp.Server.{Server, Reply, no_stats, nak_destination}
use dns_desktop.Dhcp.Server.Handle.{handle, handle_request, informed_reply}
use dns_desktop.Dhcp.Server.Wire.{Datagram, serve}
use dns_desktop.Dhcp.Server.History.{serve-IsPool}
use dns_desktop.Dhcp.Server.Answers.{Echoes, handle-Echoes}
use dns_desktop.Dhcp.Server.Refusals.{NoLease, handle_refuses}
use dns_desktop.Dhcp.Server.Leases.{handle_request_binds, handle_inform-NoLease}
use dns_desktop.Dhcp.Server.Silence.{Answers, handle_request-Answers}
use dns_desktop.Dhcp.Message.Names.{decode_dns_name}
use dns_desktop.Dhcp.Server.Fill.{fill, encode_search_list}
use dns_desktop.Dhcp.Server.Search.{joined, that_fit, decode_dns_name-encode_search_list}
use dns_desktop.Dhcp.Server.Times.{Times, fill-Times}
use dns_desktop.Dhcp.Tests.{host, home, home_pool}

abbrev home_server : Server
home_server = record {
  opts = record {
    server_id = v4 (host 1);
    router = v4 (host 1);
    dns = v4 (host 1) ∷ [];
    domain_name = [];
    search = [];
    mtu = pos 0;
  };
  pool = home_pool;
  stats = no_stats;
  bindings = [];
}

home_pool-IsPool : IsPool home_pool
unfolding home_pool new_pool lookup insert
home_pool-IsPool = new_pool-IsPool home home_pool refl

-- No text for the errors, and a socket that takes everything.
abbrev no_text : Pool → PoolError → Addr → Bytes
no_text p e a = []

abbrev takes_all : Datagram → Bool
takes_all d = true

abbrev message_of : Addr → Options → Message
message_of ciaddr options = record {
  op = boot_request;
  htype = 1;
  hlen = 6;
  hops = 0;
  xid = 77;
  secs = 0;
  flags = 0;
  ciaddr = ciaddr;
  yiaddr = no_addr;
  siaddr = no_addr;
  giaddr = no_addr;
  chaddr = 1 ∷ 2 ∷ 3 ∷ 4 ∷ 5 ∷ 6 ∷ [];
  sname = [];
  file = [];
  options = options;
}

abbrev typed : ℕ → DhcpOption
typed t = record { code = option_message_type; content = t ∷ [] }

-- A request for 192.168.1.254, after a reboot.
abbrev reboot : Message
reboot =
    message_of no_addr
      (typed 3 ∷ record { code = option_requested_ip; content = be32 (host 254) } ∷ [])

abbrev reply_in : Option Reply → Reply
reply_in (some r) = r
reply_in none = record { message = message_of no_addr []; to = no_addr; port = 0 }

abbrev answer : Server × Option Reply
answer = handle_request no_text home_server 1000 1001 reboot

handle_request_binds_example :
    (l : Lease) × ((reply_in answer.1).message.yiaddr ≡ l.addr)
    × (l.key ≡ client_key reboot)
    × (answer.0.bindings ≡ l ∷ [])
    × (lookup_addr answer.0.pool 2000 l.addr
        ≡ (if is_reserved l.state || ltb 2000 (1000 + home_pool.lease) then some l else none))
unfolding home_pool new_pool lookup insert handle_request uint8 map_values expire_entry set_uint8
handle_request_binds_example =
    handle_request_binds no_text home_server 1000 1001 reboot 2000 answer.0 (reply_in answer.1)
      home_pool-IsPool refl refl

handle-Echoes_example : Echoes (host 1) reboot (handle no_text home_server 1000 1001 reboot).1
handle-Echoes_example = handle-Echoes no_text home_server 1000 1001 reboot (host 1) refl

-- A request for an address that is reserved for another client.
abbrev greedy : Message
greedy =
    message_of no_addr
      (typed 3 ∷ record { code = option_requested_ip; content = be32 (host 9) } ∷ [])

abbrev refusal : Reply
refusal = reply_in (handle no_text home_server 1000 1001 greedy).1

handle_refuses_example :
    NoLease refusal.message
    × (refusal.message.ciaddr ≡ no_addr)
    × ((refusal.to, refusal.port) ≡ nak_destination greedy)
unfolding home_pool new_pool lookup insert handle uint8 map_values expire_entry set_uint8
handle_refuses_example = handle_refuses no_text home_server 1000 1001 greedy refusal refl refl

-- A client that renews an address of another network.
abbrev elsewhere : Message
elsewhere = message_of (v4 7) (typed 3 ∷ [])

handle_request-Answers_example :
    Answers true (handle_request no_text home_server 1000 1001 elsewhere).1
unfolding request_kind message_type uint8 addr get home_pool new_pool lookup insert
handle_request-Answers_example = handle_request-Answers no_text home_server 1000 1001 elsewhere

abbrev informed : Message
informed = message_of (v4 (host 20)) (typed 8 ∷ [])

handle_inform-NoLease_example :
    ((handle no_text home_server 1000 1001 informed).0.pool ≡ home_pool)
    × ((handle no_text home_server 1000 1001 informed).1
        ≡ some (informed_reply home_server informed))
    × NoLease (informed_reply home_server informed).message
unfolding message_type uint8 get
handle_inform-NoLease_example =
    handle_inform-NoLease no_text home_server 1000 1001 informed refl refl

abbrev arrivals : List (ℕ × ℕ × Bytes)
arrivals = (1000, 1001, 1 ∷ 1 ∷ 6 ∷ []) ∷ (2000, 2001, 2 ∷ []) ∷ []

serve-IsPool_example : IsPool (serve no_text takes_all home_server arrivals).pool
serve-IsPool_example = serve-IsPool no_text takes_all home_server arrivals home_pool-IsPool

-- A lease of twelve hours.
fill-Times_example :
    Times
      (fill home_server.opts home_pool.subnet [] 43_200_000_000_000)
      43_200_000_000_000
      (43_200_000_000_000 / 2)
      (43_200_000_000_000 * 7 / 8)
    × (43_200_000_000_000 / 2 / second ≤ 43_200_000_000_000 * 7 / 8 / second)
    × (43_200_000_000_000 * 7 / 8 / second ≤ 43_200_000_000_000 / second)
fill-Times_example =
    fill-Times home_server.opts home_pool.subnet [] 43_200_000_000_000 (omega arith) (omega arith)

-- The search list of `a.bc` and `d`.
-- The name "a..bc", of which the empty label is left out.
abbrev local_labels : List Bytes
local_labels = (b'a' ∷ []) ∷ [] ∷ (b'b' ∷ b'c' ∷ []) ∷ []

decode_dns_name-encode_search_list_example :
    decode_dns_name (encode_search_list (joined local_labels ∷ (b'd' ∷ []) ∷ []))
    ≡ joined (that_fit local_labels)
decode_dns_name-encode_search_list_example =
    decode_dns_name-encode_search_list local_labels ((b'd' ∷ []) ∷ [])
      ((refl, tt), (tt, ((refl, (refl, tt)), tt)))

name_comes_back :
    decode_dns_name (encode_search_list ((b'a' ∷ b'.' ∷ b'b' ∷ b'c' ∷ []) ∷ []))
    ≡ b'a' ∷ b'.' ∷ b'b' ∷ b'c' ∷ []
unfolding decode_dns_name encode_search_list
name_comes_back = refl
