-- ===== src/Dhcp/Server/Fill.antt =====
-- `fill`, `maskOf`, `encodeSearchList` and `splitLabels` of internal/dhcp/server.go: the
-- configuration that a reply carries.
use dns_desktop.Common.{
  ℕ, zero, suc, ◌-◌, ◌*◌, ◌/◌, ◌%◌, ◌^◌, ◌||◌, List, [], ◌∷◌, ◌++◌, Bytes, length, null, ◌==◌, ℕ_eq,
  ltb, if◌then◌else◌,
}
use dns_desktop.Common.Int.{ℤ, pos, negsuc, wrap64, div_ℤ}
use dns_desktop.Net.{Addr, no_addr, v4, Prefix, bits}
use dns_desktop.Dhcp.Types.{
  option_server_id, option_lease_time, option_renewal_time, option_rebinding_time,
  option_subnet_mask, option_broadcast_address, option_router, option_dns_server,
  option_domain_name, option_domain_search, option_interface_mtu,
}
use dns_desktop.Dhcp.Options.{
  Options, set, set_addr, set_addrs, set_string, set_uint16, set_duration,
}
use dns_desktop.Dhcp.Message.Fields.{is_set}
use dns_desktop.Dhcp.Pool.New.{broadcast_of}
use dns_desktop.Dhcp.Server.{ServerOptions}

-- `maskOf` of a prefix of at most 32 bits: `^uint32(0) << (32 - bits)`.
unfoldable pub mask_of : Prefix → Addr
mask_of p = v4 (2 ^ 32 - 2 ^ (32 - bits p))

-- `broadcastOf` of the served subnet, which is of IPv4; `As4` of any other address panics.
abbrev pub subnet_broadcast : Addr → ℕ → Addr
subnet_broadcast (v4 a) n = v4 (broadcast_of a n)
subnet_broadcast _ n = no_addr

-- The label before the first dot, and what follows that dot.
unfoldable pub split_at_dot : Bytes → Bytes × Bytes
split_at_dot [] = ([], [])
split_at_dot (c ∷ cs) =
    let (label, rest) = split_at_dot cs in if c == b'.' then ([], cs) else (c ∷ label, rest)

-- `splitLabels`: a step takes the label and the dot, so the length of the name is enough fuel.
unfoldable pub labels_loop : ℕ → Bytes → List Bytes
unfolding split_at_dot
labels_loop zero name = []
labels_loop (suc fuel) name =
    let (label, rest) = split_at_dot name in
    let more = labels_loop fuel rest in if null name then [] else label ∷ more

unfoldable pub split_labels : Bytes → List Bytes
unfolding labels_loop
split_labels name = labels_loop (length name) name

unfoldable pub encode_labels : List Bytes → Bytes
encode_labels [] = 0 ∷ []
encode_labels (label ∷ labels) =
    let rest = encode_labels labels in
    if null label || ltb 63 (length label) then rest else length label ∷ label ++ rest

unfoldable pub encode_search_list : List Bytes → Bytes
unfolding split_labels encode_labels
encode_search_list [] = []
encode_search_list (name ∷ names) = encode_labels (split_labels name) ++ encode_search_list names

-- The three times, for a lease time of less than 2 ^ 63 nanoseconds that is not 0.
abbrev pub fill_times : Options → ℕ → Options
fill_times o lease_time =
    if ltb 0 lease_time
    then set_duration
        (set_duration (set_duration o option_lease_time (pos lease_time)) option_renewal_time
          (pos (lease_time / 2)))
        option_rebinding_time (div_ℤ (wrap64 (lease_time * 7)) 8)
    else o

abbrev pub fill_mtu : Options → ℤ → Options
fill_mtu o (pos n) = if ltb 0 n then set_uint16 o option_interface_mtu (n % 2 ^ 16) else o
fill_mtu o (negsuc _) = o

abbrev pub fill_router : Options → Addr → Options
fill_router o a = if is_set a then set_addrs o option_router (a ∷ []) else o

abbrev pub fill_dns : Options → List Addr → Options
fill_dns o l = if null l then o else set_addrs o option_dns_server l

abbrev pub fill_domain : Options → Bytes → Options
fill_domain o s = if null s then o else set_string o option_domain_name s

abbrev pub fill_search : Options → List Bytes → Options
fill_search o names =
    if null names then o else set o option_domain_search (encode_search_list names)

-- What the reply says of the network, which does not depend on the lease.
abbrev pub fill_config : ServerOptions → Prefix → Options → Options
fill_config opts sub o =
    let o2 = set_addr o option_subnet_mask (mask_of sub) in
    let o3 = set_addr o2 option_broadcast_address (subnet_broadcast sub.addr (bits sub)) in
    let o4 = fill_dns (fill_router o3 opts.router) opts.dns in
    fill_mtu (fill_search (fill_domain o4 opts.domain_name) opts.search) opts.mtu

-- `fill` on the options of the reply.
unfoldable pub fill : ServerOptions → Prefix → Options → ℕ → Options
unfolding set set_addr set_addrs set_string set_uint16 set_duration mask_of encode_search_list
    broadcast_of
fill opts sub o lease_time =
    fill_config opts sub (fill_times (set_addr o option_server_id opts.server_id) lease_time)
