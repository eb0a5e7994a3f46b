-- ===== src/Dhcp/Server.antt =====
-- internal/dhcp/server.go: the protocol, from one message to at most one reply.
pub mod Fill
pub mod Handle
pub mod Wire
pub mod History
pub mod Read
pub mod Answers
pub mod Refusals
pub mod Silence
pub mod Leases
pub mod Times
pub mod Search
use dns_desktop.Common.{
  ℕ, ◌+◌, ◌-◌, ◌%◌, ◌^◌, Bool, not, ◌&&◌, ◌||◌, Option, none, some, List, [], Bytes, Result, ok,
  err, if◌then◌else◌,
}
use dns_desktop.Common.Int.{ℤ}
use dns_desktop.Net.{Addr, v4, is4, is_unspecified, contains}
use dns_desktop.Dhcp.Message.{Message}
use dns_desktop.Dhcp.Message.Fields.{broadcast, is_set}
use dns_desktop.Dhcp.Pool.{Pool, Lease}

abbrev pub server_port : ℕ
server_port = 67

abbrev pub client_port : ℕ
client_port = 68

abbrev pub broadcast_addr : Addr
broadcast_addr = v4 (2 ^ 32 - 1)

-- The clock, the logger and the hook are not options here: a call takes the clock's reading, and
-- the leases that the hook `OnBound` gets are kept in the server.
pub record ServerOptions : Type 0 where
  pub server_id : Addr
  pub router : Addr
  pub dns : List Addr
  pub domain_name : Bytes
  pub search : List Bytes
  pub mtu : ℤ

pub record ServerStats : Type 0 where
  pub received : ℕ
  pub malformed : ℕ
  pub ignored : ℕ
  pub offers : ℕ
  pub acks : ℕ
  pub naks : ℕ
  pub declines : ℕ
  pub releases : ℕ
  pub informs : ℕ
  pub write_errs : ℕ

abbrev pub no_stats : ServerStats
no_stats = record {
  received = 0;
  malformed = 0;
  ignored = 0;
  offers = 0;
  acks = 0;
  naks = 0;
  declines = 0;
  releases = 0;
  informs = 0;
  write_errs = 0;
}

-- `Add(1)` on an atomic counter of 64 bits.
abbrev pub count : ℕ → ℕ
count n = (n + 1) % 2 ^ 64

-- `bindings` are the leases that `OnBound` was called with, the last one first.
pub record Server : Type 0 where
  pub opts : ServerOptions
  pub pool : Pool
  pub stats : ServerStats
  pub bindings : List Lease

pub data ServerError : Type 0 where
  no_pool bad_server_id outside_served : ServerError

-- `NewServer`
abbrev pub checked_server : ServerOptions → Pool → Result ServerError Server
checked_server opts pool =
    if not (is4 opts.server_id) || is_unspecified opts.server_id
    then err bad_server_id
    else if not (contains pool.subnet opts.server_id)
    then err outside_served
    else ok (record { opts = opts; pool = pool; stats = no_stats; bindings = [] })

unfoldable pub new_server : ServerOptions → Option Pool → Result ServerError Server
new_server opts none = err no_pool
new_server opts (some pool) = checked_server opts pool

-- A reply and the address and port that it goes to. No reply is `none`.
pub record Reply : Type 0 where
  pub message : Message
  pub to : Addr
  pub port : ℕ

abbrev pub Destination : Type 0
Destination = Addr × ℕ

unfoldable pub destination : Message → Destination
unfolding broadcast
destination req =
    if is_set req.giaddr
    then (req.giaddr, server_port)
    else if broadcast req
    then (broadcast_addr, client_port)
    else if is_set req.ciaddr
    then (req.ciaddr, client_port)
    else (broadcast_addr, client_port)

unfoldable pub nak_destination : Message → Destination
nak_destination req =
    if is_set req.giaddr then (req.giaddr, server_port) else (broadcast_addr, client_port)

unfoldable pub inform_destination : Message → Destination
inform_destination req =
    if is_set req.giaddr
    then (req.giaddr, server_port)
    else if is_set req.ciaddr
    then (req.ciaddr, client_port)
    else (broadcast_addr, client_port)
