-- ===== src/Dhcp/Server/Refusals.antt =====
-- Refusals and silence of `Handle` (internal/dhcp/server.go).
use dns_desktop.Common.{
  ℕ, ◌≡◌, ◌∙◌, refl, sym, subst, false, Option, none, some, [], ◌∷◌, Bytes, arith, ◌==◌, ℕ_eq,
}
use dns_desktop.Net.{Addr, no_addr, addr_eq_instance}
use dns_desktop.Dhcp.Types.{
  MessageType, offer, ack, nak, option_server_id, option_message, option_message_type,
  option_relay_agent_info, option_lease_time, option_renewal_time, option_rebinding_time,
}
use dns_desktop.Dhcp.Options.{get, set_addr}
use dns_desktop.Dhcp.Message.{Message}
use dns_desktop.Dhcp.Message.Fields.{reply}
use dns_desktop.Dhcp.Pool.{Pool, PoolError}
use dns_desktop.Dhcp.Server.{Server, Reply, nak_destination}
use dns_desktop.Dhcp.Server.Fill.{fill}
use dns_desktop.Dhcp.Server.Read.{get-set_string_other, get-set_addr_other, get-fill_other}
use dns_desktop.Dhcp.Server.Answers.{
  reply-Kept, get-reply_type, get-reply-none, Shape, silent, offering, binding, refusing, informing,
  handle-Shape,
}
use dns_desktop.Dhcp.Server.Handle.{handle, nak_message}

-- No address, and none of the three times.
abbrev pub NoLease : Message → Type 0
NoLease r =
    (r.yiaddr ≡ no_addr)
    × (get r.options option_lease_time ≡ none)
    × (get r.options option_renewal_time ≡ none)
    × (get r.options option_rebinding_time ≡ none)

abbrev RefusalOk : Message → Option Reply → Type 0
RefusalOk m none = Unit
RefusalOk m (some r) =
    get r.message.options option_message_type ≡ some (6 ∷ [])
    → NoLease r.message × (r.message.ciaddr ≡ no_addr) × ((r.to, r.port) ≡ nak_destination m)

pub get-fill_type :
    (s : Server) (m : Message) (t : MessageType) (n : ℕ)
    → get (fill s.opts s.pool.subnet (reply m t).options n) option_message_type
      ≡ get (reply m t).options option_message_type
get-fill_type s m t n =
    get-fill_other s.opts s.pool.subnet (reply m t).options n option_message_type refl refl refl
      refl refl

pub get-nak_other :
    (s : Server) (m : Message) (reason : Bytes) (d : ℕ)
    → (option_message == d) ≡ false
    → (option_server_id == d) ≡ false
    → get (nak_message s m reason).options d ≡ get (reply m nak).options d
get-nak_other s m reason d h h' =
    get-set_string_other (set_addr (reply m nak).options option_server_id s.opts.server_id)
      option_message d reason h
    ∙ get-set_addr_other (reply m nak).options option_server_id d s.opts.server_id h'

get-nak_none :
    (s : Server) (m : Message) (reason : Bytes) (d : ℕ)
    → (option_message == d) ≡ false
    → (option_server_id == d) ≡ false
    → (option_relay_agent_info == d) ≡ false
    → (option_message_type == d) ≡ false
    → get (nak_message s m reason).options d ≡ none
get-nak_none s m reason d h1 h2 h3 h4 =
    get-nak_other s m reason d h1 h2 ∙ get-reply-none m nak d h3 h4

reply-yiaddr : (m : Message) (t : MessageType) → (reply m t).yiaddr ≡ no_addr
reply-yiaddr m t = (reply-Kept m t).6

Shape-RefusalOk : (s : Server) (m : Message) (r : Option Reply) → Shape s m r → RefusalOk m r
Shape-RefusalOk s m _ silent = tt
Shape-RefusalOk s m _ (offering l) = λ h. absurd (
    ground (arith, sym (get-reply_type m offer) ∙ (sym (get-fill_type s m offer s.pool.lease) ∙ h)))
Shape-RefusalOk s m _ (binding l) = λ h.
    absurd
      (ground (arith, sym (get-reply_type m ack) ∙ (sym (get-fill_type s m ack s.pool.lease) ∙ h)))
Shape-RefusalOk s m _ informing =
    λ h. absurd (ground (arith, sym (get-reply_type m ack) ∙ (sym (get-fill_type s m ack 0) ∙ h)))
Shape-RefusalOk s m _ (refusing reason) = λ h. (
  (
    reply-yiaddr m nak,
    get-nak_none s m reason option_lease_time refl refl refl refl,
    get-nak_none s m reason option_renewal_time refl refl refl refl,
    get-nak_none s m reason option_rebinding_time refl refl refl refl,
  ),
  refl,
  refl,
)

-- Where `Handle` replies with a NAK, the reply carries no address, none of the three lease times and
-- no client address, and goes where `nakDestination` says.
pub handle_refuses :
    (error_text : Pool → PoolError → Addr → Bytes) (s : Server) (now later : ℕ) (m : Message)
    (r : Reply)
    → (handle error_text s now later m).1 ≡ some r
    → get r.message.options option_message_type ≡ some (6 ∷ [])
    → NoLease r.message × (r.message.ciaddr ≡ no_addr) × ((r.to, r.port) ≡ nak_destination m)
handle_refuses error_text s now later m r replied is_nak =
    subst (RefusalOk m) replied
      (Shape-RefusalOk s m (handle error_text s now later m).1
        (handle-Shape error_text s now later m))
      is_nak
