-- ===== src/Dhcp/Message.antt =====
-- internal/dhcp/message.go: one DHCPv4 message, and its wire form.
pub mod Names
pub mod Fields
pub mod Clean
pub mod Layout
pub mod RoundTrip
use dns_desktop.Common.{
  ℕ, zero, suc, ◌+◌, ◌-◌, ◌*◌, ◌/◌, ◌%◌, ◌^◌, min, Bool, true, false, not, ◌&&◌, ◌||◌, Option, none,
  some, List, [], ◌∷◌, ◌++◌, Bytes, length, null, take, drop, replicate, get_or, Result, ok, err,
  ◌==◌, ℕ_eq, ltb, leb, if◌then◌else◌,
}
use dns_desktop.Net.{Addr, no_addr, v4, v6, be16, be32, from_be32}
use dns_desktop.Dhcp.Types.{overload_file, overload_sname, option_pad}
use dns_desktop.Dhcp.Options.{Options}
use dns_desktop.Dhcp.Options.Wire.{append_to, parse_options}

abbrev pub header_len : ℕ
header_len = 236

abbrev pub magic_cookie : ℕ
magic_cookie = 0x63825363

abbrev pub min_len : ℕ
min_len = header_len + 4

abbrev pub pad_to : ℕ
pad_to = 300

abbrev pub default_max_size : ℕ
default_max_size = 548

abbrev pub max_message_len : ℕ
max_message_len = 65507

abbrev pub chaddr_len : ℕ
chaddr_len = 16

abbrev pub sname_len : ℕ
sname_len = 64

abbrev pub file_len : ℕ
file_len = 128

pub record Message : Type 0 where
  pub op : ℕ
  pub htype : ℕ
  pub hlen : ℕ
  pub hops : ℕ
  pub xid : ℕ
  pub secs : ℕ
  pub flags : ℕ
  pub ciaddr : Addr
  pub yiaddr : Addr
  pub siaddr : Addr
  pub giaddr : Addr
  pub chaddr : Bytes
  pub sname : Bytes
  pub file : Bytes
  pub options : Options

pub data Error : Type 0 where
  -- the errors of `Unpack`
  short_message too_long bad_cookie : Error
  -- the errors of `AppendTo`
  hlen_exceeds chaddr_exceeds sname_exceeds file_exceeds : Error

-- `trimNUL`, with `indexByte`: what stands before the first zero byte.
unfoldable pub trim_nul : Bytes → Bytes
trim_nul [] = []
trim_nul (x ∷ xs) = if x == 0 then [] else x ∷ trim_nul xs

abbrev pub byte_at : Bytes → ℕ → ℕ
byte_at b i = get_or b i 0

abbrev pub u16_at : Bytes → ℕ → ℕ
u16_at b i = byte_at b i * 2 ^ 8 + byte_at b (i + 1)

abbrev pub u32_at : Bytes → ℕ → ℕ
u32_at b i = from_be32 (byte_at b i) (byte_at b (i + 1)) (byte_at b (i + 2)) (byte_at b (i + 3))

-- `overload & flag != 0`
abbrev has_flag : ℕ → ℕ → Bool
has_flag overload flag = overload / flag % 2 == 1

-- The options of the message: those of the options field, then of the file field and of the sname
-- field where option 52 says so. A field that carries options has no text.
abbrev pub unpack_fields : Bytes → Bytes → Options × ℕ → Bytes × Bytes × Options
unpack_fields sname file (options, overload) =
    let in_file = has_flag overload overload_file in
    let in_sname = has_flag overload overload_sname in
    let options' = if in_file then (parse_options file options).0 else options in
    let options'' = if in_sname then (parse_options sname options').0 else options' in
    (trim_nul (if in_sname then [] else sname), trim_nul (if in_file then [] else file), options'')

abbrev pub unpack_body : Bytes → Message
unpack_body b =
    let (sname, file, options) =
      unpack_fields (take sname_len (drop 44 b)) (take file_len (drop 108 b))
        (parse_options (drop min_len b) []) in
    record {
      op = byte_at b 0;
      htype = byte_at b 1;
      hlen = byte_at b 2;
      hops = byte_at b 3;
      xid = u32_at b 4;
      secs = u16_at b 8;
      flags = u16_at b 10;
      ciaddr = v4 (u32_at b 12);
      yiaddr = v4 (u32_at b 16);
      siaddr = v4 (u32_at b 20);
      giaddr = v4 (u32_at b 24);
      chaddr = take (min (byte_at b 2) chaddr_len) (drop 28 b);
      sname = sname;
      file = file;
      options = options;
    }

unfoldable pub unpack : Bytes → Result Error Message
unpack b =
    if ltb (length b) min_len
    then err short_message
    else if ltb max_message_len (length b)
    then err too_long
    else if not (u32_at b header_len == magic_cookie)
    then err bad_cookie
    else ok (unpack_body b)

-- `appendAddr`: an address that is not IPv4 is written as 0.0.0.0.
abbrev pub addr_octets : Addr → Bytes
addr_octets (v4 a) = be32 a
addr_octets _ = 0 ∷ 0 ∷ 0 ∷ 0 ∷ []

-- `appendFixed`
abbrev pub fixed : Bytes → ℕ → Bytes
fixed s n = s ++ replicate (n - length s) 0

-- The fixed header with the cookie.
abbrev pub header : Message → Bytes
header m =
    (m.op ∷ m.htype ∷ m.hlen ∷ m.hops ∷ [])
    ++ (be32 m.xid
        ++ (be16 m.secs
            ++ (be16 m.flags
                ++ (addr_octets m.ciaddr
                    ++ (addr_octets m.yiaddr
                        ++ (addr_octets m.siaddr
                            ++ (addr_octets m.giaddr
                                ++ (fixed m.chaddr chaddr_len
                                    ++ (fixed m.sname sname_len
                                        ++ (fixed m.file file_len ++ be32 magic_cookie))))))))))

-- `AppendTo` on an empty buffer, which is `Pack`.
unfoldable pub pack : Message → Result Error Bytes
pack m =
    if ltb chaddr_len m.hlen
    then err hlen_exceeds
    else if ltb chaddr_len (length m.chaddr)
    then err chaddr_exceeds
    else if leb sname_len (length m.sname)
    then err sname_exceeds
    else if leb file_len (length m.file)
    then err file_exceeds
    else let b = append_to m.options (header m) in
      ok (b ++ replicate (pad_to - length b) option_pad)
