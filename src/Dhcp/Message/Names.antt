-- ===== src/Dhcp/Message/Names.antt =====
-- The names a client gives itself (internal/dhcp/message.go): SanitiseName, decodeDNSName and
-- HostName.
use dns_desktop.Common.{
  ℕ, zero, suc, ◌/◌, ◌%◌, Bool, not, ◌||◌, Option, none, some, List, [], ◌∷◌, ◌++◌, Bytes, length,
  null, take, drop, ◌==◌, ℕ_eq, ltb, leb, if◌then◌else◌,
}
use dns_desktop.Text.{runes, encode_runes, trim_space}
use dns_desktop.Dhcp.Types.{option_host_name, option_client_fqdn}
use dns_desktop.Dhcp.Options.{get, string, trim_right_nul}
use dns_desktop.Dhcp.Message.{Message, byte_at}

abbrev pub max_name : ℕ
max_name = 63

-- A control character, which is left out.
abbrev pub is_control : ℕ → Bool
is_control r = ltb r 0x20 || r == 0x7f

-- The loop of `SanitiseName`; `sb` holds the runes that the builder has been given. At a NUL the
-- name is returned as it is, and otherwise with its outer spaces trimmed.
unfoldable pub sanitise_loop : List ℕ → List ℕ → List ℕ
sanitise_loop [] sb = trim_space sb
sanitise_loop (r ∷ rs) sb =
    let rest = sanitise_loop rs (if is_control r then sb else sb ++ (r ∷ [])) in
    if leb max_name (length (encode_runes sb)) then trim_space sb else if r == 0 then sb else rest

unfoldable pub sanitise_name : Bytes → Bytes
unfolding sanitise_loop
sanitise_name s = encode_runes (sanitise_loop (runes s) [])

-- `decodeDNSName`, with the number of bytes to pass over first. A label whose length byte has one
-- of its two top bits set, or that does not fit, ends the name.
unfoldable pub dns_name_after : ℕ → Bytes → Bytes → Bytes
dns_name_after skip [] sb = sb
dns_name_after (suc skip) (n ∷ rest) sb = dns_name_after skip rest sb
dns_name_after zero (n ∷ rest) sb =
    let sb' = if null sb then sb else sb ++ (b'.' ∷ []) in
    let longer = dns_name_after n rest (sb' ++ take n rest) in
    if n == 0 then sb else if not (n / 64 % 4 == 0) || ltb (length rest) n then sb else longer

unfoldable pub decode_dns_name : Bytes → Bytes
unfolding dns_name_after
decode_dns_name b = dns_name_after 0 b []

-- The FQDN option: flags, two bytes that are not read, and the name.
unfoldable pub fqdn_name : Option Bytes → Bytes
fqdn_name none = []
fqdn_name (some b) =
    if ltb 3 (length b)
    then if byte_at b 0 / 4 % 2 == 1
      then sanitise_name (decode_dns_name (drop 3 b))
      else sanitise_name (trim_right_nul (drop 3 b))
    else []

unfoldable pub name_or_fqdn : Option Bytes → Option Bytes → Bytes
name_or_fqdn none fqdn = fqdn_name fqdn
name_or_fqdn (some s) fqdn = if null s then fqdn_name fqdn else sanitise_name s

unfoldable pub host_name : Message → Bytes
unfolding name_or_fqdn fqdn_name sanitise_name
host_name m = name_or_fqdn (string m.options option_host_name) (get m.options option_client_fqdn)
