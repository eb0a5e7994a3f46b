-- ===== src/Dhcp/Tests/Codec.antt =====
-- The codec (internal/dhcp/option.go and internal/dhcp/message.go) on a DISCOVER with two options.
use dns_desktop.Dhcp.Options.Wire.{append_option}
use dns_desktop.Common.{
  ◌*◌, ◌/◌, ◌≤◌, ◌≡◌, refl, [], ◌∷◌, ◌++◌, Bytes, length, some, Result, ok, err, arith, ℕ_eq,
}
use dns_desktop.Net.{no_addr, v4}
use dns_desktop.Dhcp.Types.{boot_request, option_message_type, option_host_name, option_router}
use dns_desktop.Dhcp.Options.{Options, get, addrs, set_addrs}
use dns_desktop.Dhcp.Options.Durations.{duration-set_duration}
use dns_desktop.Common.Int.{pos}
use dns_desktop.Dhcp.Types.{option_lease_time}
use dns_desktop.Dhcp.Options.{duration, set_duration, second}
use dns_desktop.Dhcp.Options.Laws.{addrs-set_addrs}
use dns_desktop.Dhcp.Options.Wire.{append_to, parse_options, parse_loop}
use dns_desktop.Dhcp.Options.Wire.Fragments.{parse_loop-fuel}
use dns_desktop.Dhcp.Options.Wire.RoundTrip.{merge, flags, parse_options-append_to}
use dns_desktop.Dhcp.Options.Wire.Decoded.{
  IsDecoded, parse_options-IsDecoded, parse_options-append_to_self,
}
use dns_desktop.Dhcp.Message.{Message, Error, pack, unpack}
use dns_desktop.Dhcp.Message.Names.{host_name}
use dns_desktop.Dhcp.Message.Clean.{IsCleanName, host_name-IsCleanName}
use dns_desktop.Dhcp.Message.Layout.{FitsHeader, with_addrs}
use dns_desktop.Dhcp.Message.RoundTrip.{pack-total, unpack-pack}
use dns_desktop.Dhcp.Tests.{host}

abbrev two_options : Options
two_options =
    record { code = option_message_type; content = 1 ∷ [] }
    ∷ record { code = option_host_name; content = b'p' ∷ b'c' ∷ [] }
    ∷ []

abbrev pub discover_message : Message
discover_message = record {
  op = boot_request;
  htype = 1;
  hlen = 6;
  hops = 0;
  xid = 0xdead_beef;
  secs = 7;
  flags = 32768;
  ciaddr = no_addr;
  yiaddr = no_addr;
  siaddr = no_addr;
  giaddr = no_addr;
  chaddr = 1 ∷ 2 ∷ 3 ∷ 4 ∷ 5 ∷ 6 ∷ [];
  sname = b's' ∷ [];
  file = [];
  options = two_options;
}

discover_fits : FitsHeader discover_message
discover_fits = record {
  hw_len = refl;
  hw_fits = omega arith;
  xid_word = omega arith;
  secs_short = omega arith;
  flags_short = omega arith;
  sname_fits = omega arith;
  file_fits = omega arith;
  sname_text = (omega arith, tt);
  file_text = tt;
}

-- The bytes of the packed message.
abbrev bytes_in : Result Error Bytes → Bytes
bytes_in (ok b) = b
bytes_in (err e) = []

abbrev sent : Message
sent = with_addrs discover_message 0 (host 10) 0 (host 1)

pack-total_example : (b : Bytes) × (pack discover_message ≡ ok b) × (300 ≤ length b)
pack-total_example = pack-total discover_message discover_fits

unpack-pack_example : unpack (bytes_in (pack sent)) ≡ ok sent
unfolding get pack append_to append_option
unpack-pack_example =
    unpack-pack discover_message 0 (host 10) 0 (host 1) (bytes_in (pack sent)) discover_fits
      (omega arith) (omega arith) (omega arith) (omega arith) (refl, refl, (refl, refl, tt)) refl
      refl (omega arith)

parse_options-append_to_example :
    parse_options (append_to two_options [] ++ (9 ∷ [])) []
    ≡ (merge two_options [], flags two_options 0)
parse_options-append_to_example =
    parse_options-append_to two_options (9 ∷ []) [] ((λ h. omega arith), ((λ h. omega arith), tt))

parse_options-append_to_self_example :
    parse_options (append_to two_options [] ++ (9 ∷ [])) [] ≡ (two_options, flags two_options 0)
unfolding get
parse_options-append_to_self_example =
    parse_options-append_to_self two_options (9 ∷ []) (refl, refl, (refl, refl, tt))
      ((λ h. omega arith), ((λ h. omega arith), tt))

parse_options-IsDecoded_example :
    IsDecoded (parse_options (12 ∷ 1 ∷ 97 ∷ 12 ∷ 1 ∷ 98 ∷ 255 ∷ []) []).0
parse_options-IsDecoded_example =
    parse_options-IsDecoded (12 ∷ 1 ∷ 97 ∷ 12 ∷ 1 ∷ 98 ∷ 255 ∷ []) [] tt

parse_loop-fuel_example :
    parse_loop 3 (12 ∷ 1 ∷ 97 ∷ []) [] 0 ≡ parse_loop 9 (12 ∷ 1 ∷ 97 ∷ []) [] 0
parse_loop-fuel_example = parse_loop-fuel 3 9 (12 ∷ 1 ∷ 97 ∷ []) [] 0 (omega arith) (omega arith)

addrs-set_addrs_example :
    addrs (set_addrs two_options option_router (v4 (host 1) ∷ v4 (host 2) ∷ [])) option_router
    ≡ some (v4 (host 1) ∷ v4 (host 2) ∷ [])
addrs-set_addrs_example =
    addrs-set_addrs two_options option_router (host 1) (v4 (host 2) ∷ [])
      (omega arith, (omega arith, tt))

host_name-IsCleanName_example : IsCleanName (host_name discover_message)
host_name-IsCleanName_example = host_name-IsCleanName discover_message

duration-set_duration_example :
    duration (set_duration [] option_lease_time (pos 43_200_500_000_000)) option_lease_time
    ≡ some (pos (43_200_500_000_000 / second * second))
duration-set_duration_example =
    duration-set_duration [] option_lease_time 43_200_500_000_000 (omega arith)
