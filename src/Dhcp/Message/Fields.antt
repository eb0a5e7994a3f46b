-- ===== src/Dhcp/Message/Fields.antt =====
-- What the server reads off a message (internal/dhcp/message.go), and the skeleton of a reply.
use dns_desktop.Common.{
  ℕ, ◌+◌, ◌-◌, ◌/◌, ◌%◌, ◌^◌, Bool, true, false, not, ◌&&◌, Option, none, some, [], ◌∷◌, ◌≡◌, refl,
  arith, Bytes, null, ◌==◌, ℕ_eq, ltb, if◌then◌else◌,
}
use dns_desktop.Net.{Addr, no_addr, is4, is_unspecified}
use dns_desktop.Dhcp.Types.{
  MessageType, request, type_code, message_type_of, RequestKind, unknown, selecting, init_reboot,
  renewing, boot_reply, option_message_type, option_client_id, option_server_id,
  option_requested_ip, option_max_message_size, option_relay_agent_info,
}
use dns_desktop.Dhcp.Options.{get, set, uint8, uint16, addr, set_uint8}
use dns_desktop.Dhcp.Message.{Message, default_max_size, max_message_len}

-- None for a BOOTP message, which has no option 53.
unfoldable pub message_type : Message → Option MessageType
message_type m = elim (uint8 m.options option_message_type) [
  | none ↦ none
  | some v ↦ some (message_type_of v)
]

unfoldable pub set_message_type : Message → MessageType → Message
set_message_type m t = record m { options = set_uint8 m.options option_message_type (type_code t) }

-- Bit 15 of the flags.
unfoldable pub broadcast : Message → Bool
broadcast m = m.flags / 2 ^ 15 % 2 == 1

unfoldable pub set_broadcast : Message → Bool → Message
unfolding broadcast
set_broadcast m true = if broadcast m then m else record m { flags = m.flags + 2 ^ 15 }
set_broadcast m false = if broadcast m then record m { flags = m.flags - 2 ^ 15 } else m

-- The prefixes "id:" and "hw:" of the two kinds of key.
abbrev pub id_key : Bytes → Bytes
id_key id = b'i' ∷ b'd' ∷ b':' ∷ id

abbrev pub hw_key : Bytes → Bytes
hw_key hw = b'h' ∷ b'w' ∷ b':' ∷ hw

abbrev key_of : Option Bytes → Bytes → Bytes
key_of none hw = hw_key hw
key_of (some id) hw = if null id then hw_key hw else id_key id

unfoldable pub client_key : Message → Bytes
client_key m = key_of (get m.options option_client_id) m.chaddr

-- An address that is there and is not 0.0.0.0.
abbrev pub is_set : Addr → Bool
is_set a = is4 a && not (is_unspecified a)

abbrev some? {ℓ} : {A : Type ℓ} → Option A → Bool
some? none = false
some? (some _) = true

abbrev pub kind_of : Bool → Bool → Addr → RequestKind
kind_of has_server has_requested ciaddr =
    if has_server && has_requested
    then selecting
    else if not has_server && has_requested
    then init_reboot
    else if not has_server && not has_requested && is_set ciaddr
    then renewing
    else unknown

unfoldable pub request_kind : Message → RequestKind
unfolding message_type
request_kind m = elim (message_type m) [
  | some request ↦
      kind_of (some? (addr m.options option_server_id)) (some? (addr m.options option_requested_ip))
        m.ciaddr
  | _ ↦ unknown
]

-- The largest reply that the client takes.
abbrev clamp_size : Option ℕ → ℕ
clamp_size none = default_max_size
clamp_size (some v) =
    if ltb v default_max_size
    then default_max_size
    else if ltb max_message_len v
    then max_message_len
    else v

unfoldable pub max_size : Message → ℕ
max_size m = clamp_size (uint16 m.options option_max_message_size)

abbrev pub echo_relay : Option Bytes → Message → Message
echo_relay none r = r
echo_relay (some relay) r = record r { options = set r.options option_relay_agent_info relay }

abbrev pub skeleton : Message → Message
skeleton m = record {
  op = boot_reply;
  htype = m.htype;
  hlen = m.hlen;
  hops = 0;
  xid = m.xid;
  secs = 0;
  flags = m.flags;
  ciaddr = no_addr;
  yiaddr = no_addr;
  siaddr = no_addr;
  giaddr = m.giaddr;
  chaddr = m.chaddr;
  sname = [];
  file = [];
  options = [];
}

-- `Reply`: the transaction, the hardware address, the relay and the flags of the request.
unfoldable pub reply : Message → MessageType → Message
unfolding set_message_type
reply m t = echo_relay (get m.options option_relay_agent_info) (set_message_type (skeleton m) t)

-- Every client has a key.
pub client_key-named : (m : Message) → null (client_key m) ≡ false
unfolding client_key
client_key-named m = go (get m.options option_client_id)
  where
    go : (o : Option Bytes) → null (key_of o m.chaddr) ≡ false
    go none = refl
    go (some id) = ground arith
