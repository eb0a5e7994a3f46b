-- ===== src/Dhcp/Server/Read.antt =====
-- What a client reads in the options that `fill` (internal/dhcp/server.go) wrote.
use dns_desktop.Common.{
  ℕ, ◌-◌, ◌*◌, ◌/◌, ◌%◌, ◌^◌, ◌≡◌, ◌∙◌, refl, Bool, true, false, ◌||◌, List, [], ◌∷◌, some, Bytes,
  null, arith, ◌==◌, ℕ_eq, ltb, leb, if◌then◌else◌,
}
use dns_desktop.Common.Int.{ℤ, pos, negsuc, wrap64, div_ℤ}
use dns_desktop.Net.{Addr, no_addr, v4, v6, be16, be32, Prefix, bits}
use dns_desktop.Dhcp.Types.{
  option_server_id, option_lease_time, option_renewal_time, option_rebinding_time,
  option_subnet_mask, option_broadcast_address, option_router, option_dns_server,
  option_domain_name, option_domain_search, option_interface_mtu,
}
use dns_desktop.Dhcp.Options.{
  Options, get, set, set_addr, set_addrs, set_string, set_uint16, set_uint32, set_duration, seconds,
  infinite_seconds, addr_bytes,
}
use dns_desktop.Dhcp.Options.Laws.{get-set, get-set_self}
use dns_desktop.Dhcp.Message.Fields.{is_set}
use dns_desktop.Dhcp.Server.{ServerOptions}
use dns_desktop.Dhcp.Server.Fill.{
  encode_search_list, mask_of, subnet_broadcast, fill, fill_config, fill_times, fill_mtu,
  fill_router, fill_dns, fill_domain, fill_search,
}

pub get-set_other :
    (o : Options) (c d : ℕ) (b : Bytes) → (c == d) ≡ false → get (set o c b) d ≡ get o d
get-set_other o c d b h = rw (get-set o c d b, h) refl

pub get-set_addr_other :
    (o : Options) (c d : ℕ) (a : Addr) → (c == d) ≡ false → get (set_addr o c a) d ≡ get o d
unfolding set_addr
get-set_addr_other o c d no_addr h = refl
get-set_addr_other o c d (v4 a) h = get-set_other o c d (be32 a) h
get-set_addr_other o c d (v6 a) h = refl

pub get-set_string_other :
    (o : Options) (c d : ℕ) (s : Bytes) → (c == d) ≡ false → get (set_string o c s) d ≡ get o d
unfolding set_string
get-set_string_other o c d s h = get-set_other o c d s h

pub get-set_addr_self :
    (o : Options) (c : ℕ) (a : Addr) (n : ℕ) → a ≡ v4 n → get (set_addr o c a) c ≡ some (be32 n)
unfolding set_addr
get-set_addr_self o c a n h = rw h (get-set_self o c (be32 n))

get_if :
    (b : Bool) (o o' o'' : Options) (d : ℕ)
    → get o d ≡ get o'' d
    → get o' d ≡ get o'' d
    → get (if b then o else o') d ≡ get o'' d
get_if true o o' o'' d h h' = h
get_if false o o' o'' d h h' = h'

get-set_addrs_other :
    (o : Options) (c d : ℕ) (l : List Addr) → (c == d) ≡ false → get (set_addrs o c l) d ≡ get o d
unfolding set_addrs
get-set_addrs_other o c d l h =
    get_if (null (addr_bytes l)) o (set o c (addr_bytes l)) o d refl
      (get-set_other o c d (addr_bytes l) h)

pub get-set_duration_other :
    (o : Options) (c d : ℕ) (v : ℤ) → (c == d) ≡ false → get (set_duration o c v) d ≡ get o d
unfolding set_duration set_uint32
get-set_duration_other o c d (pos n) h =
    get_if (n == 2 ^ 63 - 1 || leb infinite_seconds (seconds n)) (set_uint32 o c infinite_seconds)
      (if n == 0 then set_uint32 o c 0 else set_uint32 o c (seconds n)) o d
      (get-set_other o c d (be32 infinite_seconds) h)
      (get_if (n == 0) (set_uint32 o c 0) (set_uint32 o c (seconds n)) o d
        (get-set_other o c d (be32 0) h) (get-set_other o c d (be32 (seconds n)) h))
get-set_duration_other o c d (negsuc n) h = get-set_other o c d (be32 0) h

-- The codes that `fill` writes beside the server identifier and the times.
abbrev pub is_config : ℕ → Bool
is_config d =
    (option_subnet_mask == d)
    || (option_broadcast_address == d)
    || (option_router == d)
    || (option_dns_server == d)
    || (option_domain_name == d)
    || (option_domain_search == d)
    || (option_interface_mtu == d)

router_other :
    (o : Options) (d : ℕ) (a : Addr)
    → (option_router == d) ≡ false
    → get (fill_router o a) d ≡ get o d
router_other o d a h =
    get_if (is_set a) (set_addrs o option_router (a ∷ [])) o o d
      (get-set_addrs_other o option_router d (a ∷ []) h) refl

dns_other :
    (o : Options) (d : ℕ) (l : List Addr)
    → (option_dns_server == d) ≡ false
    → get (fill_dns o l) d ≡ get o d
dns_other o d l h =
    get_if (null l) o (set_addrs o option_dns_server l) o d refl
      (get-set_addrs_other o option_dns_server d l h)

domain_other :
    (o : Options) (d : ℕ) (s : Bytes)
    → (option_domain_name == d) ≡ false
    → get (fill_domain o s) d ≡ get o d
unfolding set_string
domain_other o d s h =
    get_if (null s) o (set o option_domain_name s) o d refl
      (get-set_other o option_domain_name d s h)

search_other :
    (o : Options) (d : ℕ) (l : List Bytes)
    → (option_domain_search == d) ≡ false
    → get (fill_search o l) d ≡ get o d
search_other o d l h =
    get_if (null l) o (set o option_domain_search (encode_search_list l)) o d refl
      (get-set_other o option_domain_search d (encode_search_list l) h)

mtu_other :
    (o : Options) (d : ℕ) (n : ℤ)
    → (option_interface_mtu == d) ≡ false
    → get (fill_mtu o n) d ≡ get o d
unfolding set_uint16
mtu_other o d (pos n) h =
    get_if (ltb 0 n) (set_uint16 o option_interface_mtu (n % 2 ^ 16)) o o d
      (get-set_other o option_interface_mtu d (be16 (n % 2 ^ 16)) h) refl
mtu_other o d (negsuc n) h = refl

pub fill_config_other :
    (opts : ServerOptions) (sub : Prefix) (o : Options) (d : ℕ)
    → is_config d ≡ false
    → get (fill_config opts sub o) d ≡ get o d
fill_config_other opts sub o d h =
    let o2 = set_addr o option_subnet_mask (mask_of sub) in
    let o3 = set_addr o2 option_broadcast_address (subnet_broadcast sub.addr (bits sub)) in
    let o4 = fill_router o3 opts.router in
    let o5 = fill_dns o4 opts.dns in
    let o6 = fill_domain o5 opts.domain_name in
    let o7 = fill_search o6 opts.search in
    mtu_other o7 d opts.mtu (ground arith)
    ∙ (search_other o6 d opts.search (ground arith)
        ∙ (domain_other o5 d opts.domain_name (ground arith)
            ∙ (dns_other o4 d opts.dns (ground arith)
                ∙ (router_other o3 d opts.router (ground arith)
                    ∙ (get-set_addr_other o2 option_broadcast_address d
                          (subnet_broadcast sub.addr (bits sub)) (ground arith)
                        ∙ get-set_addr_other o option_subnet_mask d (mask_of sub)
                            (ground arith))))))

pub fill_times_other :
    (o : Options) (t d : ℕ)
    → (option_lease_time == d) ≡ false
    → (option_renewal_time == d) ≡ false
    → (option_rebinding_time == d) ≡ false
    → get (fill_times o t) d ≡ get o d
fill_times_other o t d h1 h2 h3 =
    let o1 = set_duration o option_lease_time (pos t) in
    let o2 = set_duration o1 option_renewal_time (pos (t / 2)) in
    let v = div_ℤ (wrap64 (t * 7)) 8 in
    get_if (ltb 0 t) (set_duration o2 option_rebinding_time v) o o d
      (get-set_duration_other o2 option_rebinding_time d v h3
        ∙ (get-set_duration_other o1 option_renewal_time d (pos (t / 2)) h2
            ∙ get-set_duration_other o option_lease_time d (pos t) h1))
      refl

-- The server identifier that a reply carries.
pub get-fill_server_id :
    (opts : ServerOptions) (sub : Prefix) (o : Options) (t id : ℕ)
    → opts.server_id ≡ v4 id
    → get (fill opts sub o t) option_server_id ≡ some (be32 id)
unfolding fill set_addr
get-fill_server_id opts sub o t id h = rw h (
    fill_config_other opts sub (fill_times (set_addr o option_server_id (v4 id)) t) option_server_id
      refl
    ∙ (fill_times_other (set_addr o option_server_id (v4 id)) t option_server_id refl refl refl
        ∙ get-set o option_server_id option_server_id (be32 id)))

-- Any option that `fill` does not write.
pub get-fill_other :
    (opts : ServerOptions) (sub : Prefix) (o : Options) (t d : ℕ)
    → is_config d ≡ false
    → (option_lease_time == d) ≡ false
    → (option_renewal_time == d) ≡ false
    → (option_rebinding_time == d) ≡ false
    → (option_server_id == d) ≡ false
    → get (fill opts sub o t) d ≡ get o d
unfolding fill
get-fill_other opts sub o t d h h1 h2 h3 h4 =
    let o1 = set_addr o option_server_id opts.server_id in
    fill_config_other opts sub (fill_times o1 t) d h
    ∙ (fill_times_other o1 t d h1 h2 h3 ∙ get-set_addr_other o option_server_id d opts.server_id h4)

-- Without a lease time there are no times at all.
pub get-fill_no_lease :
    (opts : ServerOptions) (sub : Prefix) (o : Options) (d : ℕ)
    → is_config d ≡ false
    → (option_server_id == d) ≡ false
    → get (fill opts sub o 0) d ≡ get o d
unfolding fill
get-fill_no_lease opts sub o d h h' =
    fill_config_other opts sub (set_addr o option_server_id opts.server_id) d h
    ∙ get-set_addr_other o option_server_id d opts.server_id h'
