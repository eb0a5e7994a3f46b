-- ===== src/Dhcp/Types.antt =====
-- internal/dhcp/types.go: the enumerations of the protocol, and the option codes of option.go that
-- the code reads or writes. A code is the byte on the wire, whether it has a name or not.
use dns_desktop.Common.{ℕ, ◌==◌, if◌then◌else◌, ℕ_eq}

abbrev pub boot_request : ℕ
boot_request = 1

abbrev pub boot_reply : ℕ
boot_reply = 2

pub data MessageType : Type 0 where
  discover offer request decline ack nak release inform force_renew : MessageType
  -- a value of option 53 that has no name
  other_type : ℕ → MessageType

abbrev pub type_code : MessageType → ℕ
type_code discover = 1
type_code offer = 2
type_code request = 3
type_code decline = 4
type_code ack = 5
type_code nak = 6
type_code release = 7
type_code inform = 8
type_code force_renew = 9
type_code (other_type n) = n

-- `MessageType(v)`: the type that the byte `v` stands for.
abbrev pub message_type_of : ℕ → MessageType
message_type_of v =
    if v == 1
    then discover
    else if v == 2
    then offer
    else if v == 3
    then request
    else if v == 4
    then decline
    else if v == 5
    then ack
    else if v == 6
    then nak
    else if v == 7
    then release
    else if v == 8
    then inform
    else if v == 9
    then force_renew
    else other_type v

pub data RequestKind : Type 0 where
  unknown selecting init_reboot renewing : RequestKind

abbrev pub option_pad : ℕ
option_pad = 0

abbrev pub option_subnet_mask : ℕ
option_subnet_mask = 1

abbrev pub option_router : ℕ
option_router = 3

abbrev pub option_dns_server : ℕ
option_dns_server = 6

abbrev pub option_host_name : ℕ
option_host_name = 12

abbrev pub option_domain_name : ℕ
option_domain_name = 15

abbrev pub option_interface_mtu : ℕ
option_interface_mtu = 26

abbrev pub option_broadcast_address : ℕ
option_broadcast_address = 28

abbrev pub option_requested_ip : ℕ
option_requested_ip = 50

abbrev pub option_lease_time : ℕ
option_lease_time = 51

abbrev pub option_overload : ℕ
option_overload = 52

abbrev pub option_message_type : ℕ
option_message_type = 53

abbrev pub option_server_id : ℕ
option_server_id = 54

abbrev pub option_message : ℕ
option_message = 56

abbrev pub option_max_message_size : ℕ
option_max_message_size = 57

abbrev pub option_renewal_time : ℕ
option_renewal_time = 58

abbrev pub option_rebinding_time : ℕ
option_rebinding_time = 59

abbrev pub option_client_id : ℕ
option_client_id = 61

abbrev pub option_client_fqdn : ℕ
option_client_fqdn = 81

abbrev pub option_relay_agent_info : ℕ
option_relay_agent_info = 82

abbrev pub option_domain_search : ℕ
option_domain_search = 119

abbrev pub option_end : ℕ
option_end = 255

-- The flags of option 52.
abbrev pub overload_file : ℕ
overload_file = 1

abbrev pub overload_sname : ℕ
overload_sname = 2
