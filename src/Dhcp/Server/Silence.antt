-- ===== src/Dhcp/Server/Silence.antt =====
-- Which requests `handleRequest` (internal/dhcp/server.go) leaves without an answer.
use dns_desktop.Common.{
  ℕ, ◌≡◌, ◌⊎◌, ◌∙◌, refl, Bool, true, false, not, Option, none, some, [], ◌∷◌, Bytes, ◌==◌, inl,
  inr, Bool-cases, Result, ok, err, if◌then◌else◌, null, bytes_eq_instance,
}
use dns_desktop.Common.Dict.{lookup}
use dns_desktop.Net.{Addr, addr_eq_instance}
use dns_desktop.Dhcp.Types.{
  ack, nak, RequestKind, unknown, selecting, init_reboot, renewing, option_server_id,
  option_message_type,
}
use dns_desktop.Dhcp.Options.{get, addr}
use dns_desktop.Dhcp.Message.{Message}
use dns_desktop.Dhcp.Message.Names.{host_name}
use dns_desktop.Dhcp.Message.Fields.{client_key, client_key-named, request_kind}
use dns_desktop.Dhcp.Pool.{
  put_bound, lease_of, Lease, Entry, Pool, PoolError, not_ours, taken, available, expire,
  expire_entry,
}
use dns_desktop.Dhcp.Pool.Alloc.{commit, commit_entry, granted, leave, committed}
use dns_desktop.Dhcp.Pool.Safety.{commit_not_ours, lookup-expire}
use dns_desktop.Dhcp.Server.{Server, Reply}
use dns_desktop.Dhcp.Server.Answers.{get-reply_type}
use dns_desktop.Dhcp.Server.Refusals.{get-nak_other, get-fill_type}
use dns_desktop.Dhcp.Server.Handle.{
  addr_or_none, handle_kind, handle_request, answered, refused_kind, request_address, nak_message,
}

-- A request that is none of the three kinds, one that names another server, and one that renews an
-- address that is none of the pool's.
abbrev is_missing : Option Entry → Bool
is_missing none = true
is_missing (some e) = false

abbrev pub is_silent : Server → Message → RequestKind → Bool
is_silent s m unknown = true
is_silent s m selecting = not (addr_or_none (addr m.options option_server_id) == s.opts.server_id)
is_silent s m init_reboot = false
is_silent s m renewing = is_missing (lookup m.ciaddr s.pool.entries)

abbrev IsAckOrNak : Message → Type 0
IsAckOrNak r =
    (get r.options option_message_type ≡ some (5 ∷ []))
    ⊎ (get r.options option_message_type ≡ some (6 ∷ []))

abbrev pub Answers : Bool → Option Reply → Type 0
Answers true o = o ≡ none
Answers false o = (r : Reply) × (o ≡ some r) × IsAckOrNak r.message

module _ (error_text : Pool → PoolError → Addr → Bytes) where
  ack-Answers :
      (s : Server) (m : Message) (kind : RequestKind) (want : Addr) (p : Pool) (l : Lease)
      → Answers false (answered error_text s m kind want (p, ok l)).1
  ack-Answers s m kind want p l =
      (_, refl, inl (get-fill_type s m ack s.pool.lease ∙ get-reply_type m ack))

  nak_type :
      (s : Server) (m : Message) (reason : Bytes)
      → get (nak_message s m reason).options option_message_type ≡ some (6 ∷ [])
  nak_type s m reason =
      get-nak_other s m reason option_message_type refl refl ∙ get-reply_type m nak

  -- A refusal is a NAK, but for a renewal of an address that is not the pool's.
  refused_kind-Answers :
      (s : Server) (m : Message) (reason : Bytes) (kind : RequestKind) (e : PoolError)
      → (kind ≡ renewing → e ≡ not_ours → ⊥)
      → Answers false (refused_kind s m reason kind e).1
  refused_kind-Answers s m reason renewing not_ours h = absurd (h refl refl)
  refused_kind-Answers s m reason renewing _ h = (_, refl, inr (nak_type s m reason))
  refused_kind-Answers s m reason _ e h = (_, refl, inr (nak_type s m reason))

  request_address-Answers :
      (s : Server) (now : ℕ) (m : Message) (kind : RequestKind) (want : Addr)
      → (kind ≡ renewing → ⊥)
      → Answers false (request_address error_text s now m kind want).1
  request_address-Answers s now m kind want other =
      by_result (commit s.pool now (client_key m) want m.chaddr (host_name m))
    where
      by_result :
          (r : Pool × Result PoolError Lease)
          → Answers false (answered error_text s m kind want r).1
      by_result (p, ok l) = ack-Answers s m kind want p l
      by_result (p, err e) =
          refused_kind-Answers (record s { pool = p }) m (error_text p e want) kind e
            (λ is_renewing _. other is_renewing)

  -- The pool's own address is committed or taken.
  commit_there :
      (p : Pool) (now : ℕ) (key : Bytes) (a : Addr) (hw hostname : Bytes) (e : Entry)
      → null key ≡ false
      → lookup a p.entries ≡ some e
      → commit p now key a hw hostname
        ≡ commit_entry (expire p now) now key hw hostname (some (expire_entry now e))
  unfolding commit
  commit_there p now key a hw hostname e named found = rw (named, lookup-expire p now a, found) refl

  renewal-Answers :
      (s : Server) (now : ℕ) (m : Message)
      → Answers
          (is_missing (lookup m.ciaddr s.pool.entries))
          (request_address error_text s now m renewing m.ciaddr).1
  renewal-Answers s now m = by_entry (lookup m.ciaddr s.pool.entries) refl
    where
      by_test :
          (b : Bool) (e : Entry)
          → Answers false
              (answered error_text s m renewing m.ciaddr (
                if b
                then granted
                    (leave (expire s.pool now) now (client_key m) e.addr)
                    (committed (expire s.pool now) e (client_key m) m.chaddr (host_name m) now)
                    (client_key m)
                else (expire s.pool now, err taken))).1
      by_test true e =
          let c = committed (expire s.pool now) e (client_key m) m.chaddr (host_name m) now in
          ack-Answers s m renewing m.ciaddr
            (put_bound (leave (expire s.pool now) now (client_key m) e.addr) c (client_key m))
            (lease_of c)
      by_test false e =
          refused_kind-Answers (record s { pool = expire s.pool now }) m
            (error_text (expire s.pool now) taken m.ciaddr) renewing taken (λ _ e. cc)

      by_entry :
          (o : Option Entry)
          → lookup m.ciaddr s.pool.entries ≡ o
          → Answers (is_missing o) (request_address error_text s now m renewing m.ciaddr).1
      by_entry none h =
          rw
            (commit_not_ours s.pool now (client_key m) m.ciaddr m.chaddr (host_name m)
              (client_key-named m) h)
            refl
      by_entry (some e) h =
          rw
            (commit_there s.pool now (client_key m) m.ciaddr m.chaddr (host_name m) e
              (client_key-named m) h)
            (by_test (available (expire_entry now e) (client_key m)) (expire_entry now e))

  -- A request is left without an answer if it is none of the three kinds, if it selects another server,
  -- or if it renews an address that is none of the pool's, inside the subnet or not. Every other request
  -- is answered, with an ACK or a NAK.
  pub handle_request-Answers :
      (s : Server) (now later : ℕ) (m : Message)
      → Answers (is_silent s m (request_kind m)) (handle_request error_text s now later m).1
  unfolding handle_request
  handle_request-Answers s now later m = by_kind (request_kind m)
    where
      by_kind :
          (kind : RequestKind)
          → Answers (is_silent s m kind) (handle_kind error_text s now later m kind).1
      by_kind unknown = refl
      by_kind init_reboot = request_address-Answers s now m init_reboot _ (λ e. cc)
      by_kind renewing = renewal-Answers s now m
      by_kind selecting =
          elim (Bool-cases (addr_or_none (addr m.options option_server_id) == s.opts.server_id)) [
            | inl ours ↦ rw ours (request_address-Answers s now m selecting _ (λ e. cc))
            | inr other ↦ rw other refl
          ]
