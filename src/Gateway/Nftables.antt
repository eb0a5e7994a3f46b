-- ===== src/Gateway/Nftables.antt =====
-- internal/gateway/nftables/nftables.go: the scripts for nft. A text is its bytes.
use Prim.Native.Char.{code}
use Prim.Native.String.{String}
use dns_desktop.Common.{
  Option, none, some, ℕ, zero, suc, ◌+◌, ◌/◌, ◌%◌, ◌^◌, Bool, true, false, not, ◌&&◌, ◌||◌, List,
  [], ◌∷◌, ◌++◌, Bytes, length, null, Result, ok, err, ◌==◌, ℕ_eq, ltb, leb, if◌then◌else◌,
}
use dns_desktop.Common.Int.{ℤ, pos, negsuc}
use dns_desktop.Text.{runes}
use dns_desktop.Net.{Addr, v4, is4, Prefix, bits, prefix_is_valid}

-- The bytes of a literal.
abbrev pub codes : String → Bytes
codes String.[] = []
codes (String.◌∷◌ c s) = code c ∷ codes s

-- `%d`, with the number as fuel.
abbrev pub digits : ℕ → ℕ → Bytes → Bytes
digits zero n rest = rest
digits (suc fuel) n rest =
    let more = digits fuel (n / 10) ((b'0' + n % 10) ∷ rest) in
    if ltb n 10 then (b'0' + n) ∷ rest else more

unfoldable pub decimal : ℕ → Bytes
decimal n = digits (n + 1) n []

-- How net/netip prints an IPv4 address and prefix: an address is its 32-bit number, whose first octet
-- is what is left of it. Others are not printed here.
unfoldable pub addr_text : Addr → Bytes
unfolding decimal
addr_text (v4 a) =
    decimal (a / 2 ^ 24)
    ++ codes "."
    ++ decimal (a / 2 ^ 16 % 256)
    ++ codes "."
    ++ decimal (a / 2 ^ 8 % 256)
    ++ codes "."
    ++ decimal (a % 256)
addr_text _ = []

unfoldable pub prefix_text : Prefix → Bytes
unfolding addr_text decimal
prefix_text p = addr_text p.addr ++ codes "/" ++ decimal (bits p)

abbrev pub table : Bytes
table = codes "gatewaydns"

abbrev pub set_uplink : Bytes
set_uplink = codes "uplink"

abbrev pub set_capture : Bytes
set_capture = codes "capture"

abbrev pub set_blocked : Bytes
set_blocked = codes "blocked"

pub record RuleOptions : Type 0 where
  pub interface : Bytes
  pub uplink : Bytes
  pub subnet : Prefix
  pub dns_port : ℤ
  pub block_ipv6 : Bool

pub data RuleError : Type 0 where
  name_missing name_too_long name_unsafe subnet_not_ipv4 not_a_port addr_not_ipv4 : RuleError

-- `safeIfname`: at most 15 bytes, each a letter, a digit, a dot, a dash or an underscore.
abbrev pub is_name_rune : ℕ → Bool
is_name_rune r =
    r == b'.'
    || r == b'-'
    || r == b'_'
    || (leb b'a' r && leb r b'z')
    || (leb b'A' r && leb r b'Z')
    || (leb b'0' r && leb r b'9')

unfoldable pub all_name_runes : List ℕ → Bool
all_name_runes [] = true
all_name_runes (r ∷ rs) = is_name_rune r && all_name_runes rs

unfoldable pub safe_ifname : Bytes → List RuleError
unfolding all_name_runes
safe_ifname name =
    if null name
    then name_missing ∷ []
    else if ltb 15 (length name)
    then name_too_long ∷ []
    else if all_name_runes (runes name)
    then []
    else name_unsafe ∷ []

abbrev pub is_port : ℤ → Bool
is_port (pos n) = ltb 0 n && leb n 65535
is_port (negsuc n) = false

-- `Validate` reports every problem.
unfoldable pub validate_rules : RuleOptions → List RuleError
unfolding safe_ifname
validate_rules o =
    safe_ifname o.interface
    ++ safe_ifname o.uplink
    ++ (if not (prefix_is_valid o.subnet) || not (is4 o.subnet.addr)
        then subnet_not_ipv4 ∷ []
        else [])
    ++ (if is_port o.dns_port then [] else not_a_port ∷ [])

abbrev pub port_text : ℤ → Bytes
port_text (pos n) = decimal n
port_text (negsuc n) = codes "-" ++ decimal (n + 1)

-- The text between two double quotes.
abbrev quoted : Bytes → Bytes
quoted s = codes "\"" ++ s ++ codes "\""

abbrev line : Bytes → Bytes
line s = s ++ (10 ∷ [])

abbrev sets_text : RuleOptions → Bytes
sets_text o =
    line (codes "  set " ++ set_uplink ++ codes " {")
    ++ line (codes "    type ifname")
    ++ line (codes "    elements = { " ++ quoted o.uplink ++ codes " }")
    ++ line (codes "  }")
    ++ line (codes "  set " ++ set_capture ++ codes " {")
    ++ line (codes "    type ifname")
    ++ line (codes "  }")
    ++ line (codes "  set " ++ set_blocked ++ codes " {")
    ++ line (codes "    type ipv4_addr")
    ++ line (codes "    flags interval")
    ++ line (codes "  }")

abbrev ipv6_text : RuleOptions → Bytes
ipv6_text o =
    if o.block_ipv6
    then line (codes "    meta nfproto ipv6 iifname " ++ quoted o.interface ++ codes " drop")
      ++ line (codes "    meta nfproto ipv6 oifname " ++ quoted o.interface ++ codes " drop")
    else []

abbrev forward_text : RuleOptions → Bytes
forward_text o =
    line (codes "  chain forward {")
    ++ line (codes "    type filter hook forward priority filter; policy accept;")
    ++ line (codes "    ip saddr @" ++ set_blocked ++ codes " drop")
    ++ line (codes "    ip daddr @" ++ set_blocked ++ codes " drop")
    ++ ipv6_text o
    ++ line (codes "  }")

abbrev nat_text : RuleOptions → Bytes
nat_text o =
    line (codes "  chain postrouting {")
    ++ line (codes "    type nat hook postrouting priority srcnat; policy accept;")
    ++ line (
        codes "    ip saddr "
        ++ prefix_text o.subnet
        ++ codes " oifname @"
        ++ set_uplink
        ++ codes " masquerade")
    ++ line (codes "  }")
    ++ line (codes "  chain prerouting {")
    ++ line (codes "    type nat hook prerouting priority dstnat; policy accept;")
    ++ line (
        codes "    iifname @"
        ++ set_capture
        ++ codes " udp dport 53 redirect to :"
        ++ port_text o.dns_port)
    ++ line (
        codes "    iifname @"
        ++ set_capture
        ++ codes " tcp dport 53 redirect to :"
        ++ port_text o.dns_port)
    ++ line (codes "  }")

unfoldable pub rules_text : RuleOptions → Bytes
unfolding prefix_text decimal
rules_text o =
    line (codes "table inet " ++ table ++ codes " {")
    ++ sets_text o
    ++ forward_text o
    ++ nat_text o
    ++ line (codes "}")

unfoldable pub render_rules : RuleOptions → Result (List RuleError) Bytes
unfolding validate_rules rules_text
render_rules o = elim (validate_rules o) [ [] ↦ ok (rules_text o) | e ∷ es ↦ err (e ∷ es) ]

abbrev pub destroy : Bytes
destroy = line (codes "destroy table inet " ++ table)

abbrev pub delete_fallback : Bytes
delete_fallback = line (codes "delete table inet " ++ table)

-- `%q` of a name that `safeIfname` has let through is the name between quotes.
abbrev element_text : Bytes → Bytes → Bytes → Bytes
element_text verb set elements = line (
    verb
    ++ codes " element inet "
    ++ table
    ++ codes " "
    ++ set
    ++ codes " { "
    ++ elements
    ++ codes " }")

unfoldable pub set_uplink_to : Bytes → Result (List RuleError) Bytes
unfolding safe_ifname
set_uplink_to iface = elim (safe_ifname iface) [
  | [] ↦ ok (
      line (codes "flush set inet " ++ table ++ codes " " ++ set_uplink)
      ++ element_text (codes "add") set_uplink (quoted iface))
  | e ∷ es ↦ err (e ∷ es)
]

abbrev verb_of : Bool → Bytes
verb_of on = if on then codes "add" else codes "delete"

unfoldable pub capture : Bytes → Bool → Result (List RuleError) Bytes
unfolding safe_ifname
capture iface on = elim (safe_ifname iface) [
  | [] ↦ ok (element_text (verb_of on) set_capture (quoted iface))
  | e ∷ es ↦ err (e ∷ es)
]

unfoldable pub block : Addr → Bool → Result (List RuleError) Bytes
unfolding addr_text
block a blocked =
    if is4 a
    then ok (element_text (verb_of blocked) set_blocked (addr_text a))
    else err (addr_not_ipv4 ∷ [])

-- `sort.Strings`, by insertion, in the order of the bytes.
unfoldable pub text_before : Bytes → Bytes → Bool
text_before [] ys = true
text_before (x ∷ xs) [] = false
text_before (x ∷ xs) (y ∷ ys) =
    let rest = text_before xs ys in if ltb x y then true else if x == y then rest else false

unfoldable pub insert_text : Bytes → List Bytes → List Bytes
unfolding text_before
insert_text x [] = x ∷ []
insert_text x (y ∷ ys) =
    let rest = insert_text x ys in if text_before x y then x ∷ y ∷ ys else y ∷ rest

unfoldable pub sort_texts : List Bytes → List Bytes
unfolding insert_text
sort_texts [] = []
sort_texts (x ∷ xs) = insert_text x (sort_texts xs)

-- `strings.Join` with a comma.
unfoldable pub join_texts : List Bytes → Bytes
join_texts [] = []
join_texts (x ∷ []) = x
join_texts (x ∷ y ∷ xs) = x ++ codes ", " ++ join_texts (y ∷ xs)

unfoldable pub addr_texts : List Addr → Option (List Bytes)
unfolding addr_text
addr_texts [] = some []
addr_texts (a ∷ rest) =
    let texts = addr_texts rest in
    if is4 a then elim texts [ none ↦ none | some ts ↦ some (addr_text a ∷ ts) ] else none

abbrev flush_blocked : Bytes
flush_blocked = line (codes "flush set inet " ++ table ++ codes " " ++ set_blocked)

unfoldable pub block_all : List Addr → Result (List RuleError) Bytes
unfolding addr_texts sort_texts join_texts
block_all addrs = elim (addr_texts addrs) [
  | none ↦ err (addr_not_ipv4 ∷ [])
  | some [] ↦ ok flush_blocked
  | some (t ∷ ts) ↦
      ok
        (flush_blocked ++ element_text (codes "add") set_blocked (join_texts (sort_texts (t ∷ ts))))
]
