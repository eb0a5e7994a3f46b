-- ===== src/Dhcp/Server/Wire.antt =====
-- `serveOne` of internal/dhcp/server.go: from one datagram to at most one datagram.
use dns_desktop.Common.{
  ℕ, Bool, true, false, not, Option, none, some, List, [], ◌∷◌, Bytes, Result, ok, err, ◌==◌, ℕ_eq,
  if◌then◌else◌,
}
use dns_desktop.Net.{Addr}
use dns_desktop.Dhcp.Types.{boot_request}
use dns_desktop.Dhcp.Message.{Message, Error, unpack, pack}
use dns_desktop.Dhcp.Pool.{Pool, PoolError}
use dns_desktop.Dhcp.Server.{Server, count, Reply}
use dns_desktop.Dhcp.Server.Handle.{ignore, handle}

pub record Datagram : Type 0 where
  pub content : Bytes
  pub to : Addr
  pub port : ℕ

-- A first byte that is not that of a request.
abbrev pub not_request : Bytes → Bool
not_request [] = false
not_request (op ∷ _) = not (op == boot_request)

-- A datagram that the socket does not take is counted. Whether it takes one is a parameter.
abbrev counted : Server → Bool → Server
counted s true = s
counted s false = record s { stats = record s.stats { write_errs = count s.stats.write_errs } }

module _ (error_text : Pool → PoolError → Addr → Bytes) (takes : Datagram → Bool) where
  abbrev pub packed : Server → Reply → Result Error Bytes → Server × Option Datagram
  packed s r (err e) = (s, none)
  packed s r (ok b) =
      let d : Datagram = record { content = b; to = r.to; port = r.port } in
      (counted s (takes d), some d)

  abbrev pub sent : Server × Option Reply → Server × Option Datagram
  sent (s, none) = (s, none)
  sent (s, some r) = packed s r (pack r.message)

  abbrev pub decoded : Server → ℕ → ℕ → Result Error Message → Server × Option Datagram
  decoded s now later (err e) =
      (record s { stats = record s.stats { malformed = count s.stats.malformed } }, none)
  decoded s now later (ok m) = sent (handle error_text s now later m)

  -- The datagram that is given to the socket, if there is one.
  unfoldable pub serve_one : Server → ℕ → ℕ → Bytes → Server × Option Datagram
  unfolding handle pack unpack
  serve_one s now later wire =
      if not_request wire then ((ignore s).0, none) else decoded s now later (unpack wire)

  -- The loop of `Serve` on the datagrams that arrive, each with its two readings of the clock.
  unfoldable pub serve : Server → List (ℕ × ℕ × Bytes) → Server
  unfolding serve_one
  serve s [] = s
  serve s ((now, later, wire) ∷ more) =
      serve
        (serve_one (record s { stats = record s.stats { received = count s.stats.received } }) now
          later wire).0
        more
