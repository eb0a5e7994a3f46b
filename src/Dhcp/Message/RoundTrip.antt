-- ===== src/Dhcp/Message/RoundTrip.antt =====
-- `Unpack` reads what `Pack` wrote (internal/dhcp/message.go).
use dns_desktop.Common.{Result, sym}
use dns_desktop.Common.{
  ℕ, ◌+◌, ◌-◌, ◌*◌, ◌/◌, ◌%◌, ◌^◌, ◌≤◌, ◌<◌, ◌≡◌, refl, ap, ◌∙◌, subst, min, Bool, true, false,
  none, [], ◌∷◌, ◌++◌, append_assoc, Bytes, length, take, drop, replicate, arith, ok, ◌==◌, ℕ_eq,
  ltb, leb, if◌then◌else◌, All, length-append, length-replicate, nat_eq_iff,
}
use dns_desktop.Net.{v4, be32, from_be32, from_be32_of}
use dns_desktop.Dhcp.Types.{option_pad, option_overload}
use dns_desktop.Dhcp.Options.{DhcpOption, Options, get}
use dns_desktop.Dhcp.Options.Wire.{append_to, parse_options}
use dns_desktop.Dhcp.Options.Wire.RoundTrip.{OverloadFits, is_structural, flags}
use dns_desktop.Dhcp.Options.Wire.Fragments.{flags_after}
use dns_desktop.Dhcp.Options.Wire.Decoded.{IsDecoded, parse_options-append_to_self}
use dns_desktop.Dhcp.Message.{
  Error, Message, unpack_fields, unpack_body, unpack, fixed, header, pack, chaddr_len, magic_cookie,
  min_len, pad_to, max_message_len, u32_at,
}
use dns_desktop.Dhcp.Message.Layout.{
  with_addrs, length-fixed, trim_nul-zeros, fields, append_to-front, header-start, start,
  FitsHeader, after_cookie, cookie_byte, chaddr_field, sname_field, file_field,
}

-- The message that `unpack_body` makes of the fixed part of the header and of the four variable ones.
abbrev assemble : Message → ℕ → ℕ → ℕ → ℕ → Bytes → Bytes → Bytes → Options × ℕ → Message
assemble m ci yi si gi chaddr sname file po =
    let (text, boot, options) = unpack_fields sname file po in
    record {
      op = m.op;
      htype = m.htype;
      hlen = m.hlen;
      hops = m.hops;
      xid =
          from_be32 (m.xid / 2 ^ 24 % 256) (m.xid / 2 ^ 16 % 256) (m.xid / 2 ^ 8 % 256)
            (m.xid % 256);
      secs = m.secs / 2 ^ 8 % 256 * 2 ^ 8 + m.secs % 256;
      flags = m.flags / 2 ^ 8 % 256 * 2 ^ 8 + m.flags % 256;
      ciaddr = v4 (from_be32 (ci / 2 ^ 24 % 256) (ci / 2 ^ 16 % 256) (ci / 2 ^ 8 % 256) (ci % 256));
      yiaddr = v4 (from_be32 (yi / 2 ^ 24 % 256) (yi / 2 ^ 16 % 256) (yi / 2 ^ 8 % 256) (yi % 256));
      siaddr = v4 (from_be32 (si / 2 ^ 24 % 256) (si / 2 ^ 16 % 256) (si / 2 ^ 8 % 256) (si % 256));
      giaddr = v4 (from_be32 (gi / 2 ^ 24 % 256) (gi / 2 ^ 16 % 256) (gi / 2 ^ 8 % 256) (gi % 256));
      chaddr = chaddr;
      sname = text;
      file = boot;
      options = options;
    }

unpack_body-start :
    (m : Message) (ci yi si gi : ℕ) (t : Bytes)
    → unpack_body (start m.op m.htype m.hlen m.hops m.xid m.secs m.flags ci yi si gi t)
      ≡ assemble m ci yi si gi
          (take (min m.hlen 16) t)
          (take 64 (drop 16 t))
          (take 128 (drop 80 t))
          (parse_options (drop 212 t) [])
unpack_body-start m ci yi si gi t = refl

tail_without :
    (o : DhcpOption) (os : Options)
    → get (o ∷ os) option_overload ≡ none
    → ((o.code == option_overload) ≡ false) × (get os option_overload ≡ none)
unfolding get
tail_without o os h = ground arith

flags-none : (os : Options) (k : ℕ) → get os option_overload ≡ none → flags os k ≡ k
unfolding flags
flags-none [] k h = refl
flags-none (o ∷ os) k h =
    let (differs, g) = tail_without o os h in
    ap (flags os) (same_flags (is_structural o.code) o.content k differs) ∙ flags-none os k g
  where
    same_flags :
        (b : Bool) (content : Bytes) (k : ℕ)
        → (o.code == option_overload) ≡ false
        → (if b then k else flags_after o.code content k) ≡ k
    same_flags true content k d = refl
    same_flags false content k d = rw d refl

OverloadFits-none : (os : Options) → get os option_overload ≡ none → All OverloadFits os
OverloadFits-none [] h = tt
OverloadFits-none (o ∷ os) h =
    let (differs, g) = tail_without o os h in
    ((λ e. absurd (ground (arith, nat_eq_iff o.code option_overload))), OverloadFits-none os g)

short_of : (a : ℕ) → a < 2 ^ 16 → a / 2 ^ 8 % 256 * 2 ^ 8 + a % 256 ≡ a
short_of a h = omega arith

module _ (m : Message) (ci yi si gi : ℕ) (w : FitsHeader m) where
  assemble-same :
      ci < 2 ^ 32
      → yi < 2 ^ 32
      → si < 2 ^ 32
      → gi < 2 ^ 32
      → assemble m ci yi si gi m.chaddr (fixed m.sname 64) (fixed m.file 128) (m.options, 0)
        ≡ with_addrs m ci yi si gi
  assemble-same hc hy hs hg =
      rw
        (
          from_be32_of m.xid w.xid_word,
          from_be32_of ci hc,
          from_be32_of yi hy,
          from_be32_of si hs,
          from_be32_of gi hg,
          short_of m.secs w.secs_short,
          short_of m.flags w.flags_short,
          trim_nul-zeros m.sname (64 - length m.sname) w.sname_text,
          trim_nul-zeros m.file (128 - length m.file) w.file_text,
        )
        refl

length-fields :
    (m : Message) (rest : Bytes) → FitsHeader m → length (fields m rest) ≡ 212 + length rest
length-fields m rest w =
    let d = be32 magic_cookie ++ rest in
    length-append (fixed m.chaddr 16) (fixed m.sname 64 ++ (fixed m.file 128 ++ d))
    ∙ omega (
      arith,
      length-fixed m.chaddr 16 (omega (arith, w.hw_len, w.hw_fits)),
      length-fixed m.sname 64 (omega (arith, w.sname_fits)),
      length-fixed m.file 128 (omega (arith, w.file_fits)),
      length-append (fixed m.sname 64) (fixed m.file 128 ++ d),
      length-append (fixed m.file 128) d,
    )

-- The bytes that `pack` makes.
abbrev packed : Message → Bytes
packed m = let b = append_to m.options (header m) in b ++ replicate (pad_to - length b) option_pad

abbrev room : Message → Bytes
room m = replicate (pad_to - length (append_to m.options (header m))) option_pad

module _ (m : Message) (ci yi si gi : ℕ) (w : FitsHeader m) where
  abbrev whole : Bytes → Bytes
  whole rest = start m.op m.htype m.hlen m.hops m.xid m.secs m.flags ci yi si gi (fields m rest)

  packed-whole :
      packed (with_addrs m ci yi si gi)
      ≡ whole (append_to m.options [] ++ room (with_addrs m ci yi si gi))
  packed-whole =
      let h = header (with_addrs m ci yi si gi) in
      let pad = room (with_addrs m ci yi si gi) in
      ap (λ b. b ++ pad) (append_to-front m.options h)
      ∙ append_assoc h (append_to m.options []) pad
      ∙ header-start m ci yi si gi (append_to m.options [] ++ pad)

  unpack_body-whole :
      (rest : Bytes)
      → parse_options rest [] ≡ (m.options, 0)
      → ci < 2 ^ 32
      → yi < 2 ^ 32
      → si < 2 ^ 32
      → gi < 2 ^ 32
      → unpack_body (whole rest) ≡ with_addrs m ci yi si gi
  unpack_body-whole rest h hc hy hs hg =
      let t = fields m rest in
      unpack_body-start m ci yi si gi t
      ∙ ap
          (λ c.
            assemble m ci yi si gi c (take 64 (drop 16 t)) (take 128 (drop 80 t))
              (parse_options (drop 212 t) []))
          (chaddr_field m rest w)
      ∙ ap
          (λ c.
            assemble m ci yi si gi m.chaddr c (take 128 (drop 80 t))
              (parse_options (drop 212 t) []))
          (sname_field m rest w)
      ∙ ap
          (λ c.
            assemble m ci yi si gi m.chaddr (fixed m.sname 64) c (parse_options (drop 212 t) []))
          (file_field m rest w)
      ∙ ap (assemble m ci yi si gi m.chaddr (fixed m.sname 64) (fixed m.file 128))
          (ap (λ b. parse_options b []) (after_cookie m rest w) ∙ h)
      ∙ assemble-same m ci yi si gi w hc hy hs hg

  cookie_there : (rest : Bytes) → u32_at (whole rest) 236 ≡ magic_cookie
  cookie_there rest =
      rw
        (
          cookie_byte m rest w 0,
          cookie_byte m rest w 1,
          cookie_byte m rest w 2,
          cookie_byte m rest w 3,
        )
        refl

  length-whole : (rest : Bytes) → length (whole rest) ≡ 240 + length rest
  length-whole rest = omega (arith, length-fields m rest w)

  unpack-whole :
      (rest : Bytes) (n : Message)
      → length (whole rest) ≤ max_message_len
      → unpack_body (whole rest) ≡ n
      → unpack (whole rest) ≡ ok n
  unfolding unpack
  unpack-whole rest n small h =
      rw
        (
          length_test (length (whole rest)) (omega (arith, length-whole rest)),
          length_limit (length (whole rest)) small,
          cookie_there rest,
          h,
        )
        refl
    where
      length_test : (k : ℕ) → 240 ≤ k → ltb k min_len ≡ false
      length_test k le = ground arith

      length_limit : (k : ℕ) → k ≤ max_message_len → ltb max_message_len k ≡ false
      length_limit k le = ground arith

fits_with_addrs :
    (m : Message) (ci yi si gi : ℕ) → FitsHeader m → FitsHeader (with_addrs m ci yi si gi)
fits_with_addrs m ci yi si gi w = record {
  hw_len = w.hw_len;
  hw_fits = w.hw_fits;
  xid_word = w.xid_word;
  secs_short = w.secs_short;
  flags_short = w.flags_short;
  sname_fits = w.sname_fits;
  file_fits = w.file_fits;
  sname_text = w.sname_text;
  file_text = w.file_text;
}

pack-packed : (m : Message) → FitsHeader m → pack m ≡ ok (packed m)
unfolding pack
pack-packed m w =
    rw
      (
        hlen_test m.hlen w.hw_fits,
        hlen_test (length m.chaddr) (omega (arith, w.hw_len, w.hw_fits)),
        room_test (length m.sname) 64 w.sname_fits,
        room_test (length m.file) 128 w.file_fits,
      )
      refl
  where
    hlen_test : (k : ℕ) → k ≤ 16 → ltb chaddr_len k ≡ false
    hlen_test k le = ground arith

    room_test : (k n : ℕ) → k < n → leb n k ≡ false
    room_test k n lt = ground arith

length-packed : (m : Message) → 300 ≤ length (packed m)
length-packed m =
    let b = append_to m.options (header m) in
    omega (arith, length-append b (room m), length-replicate {A = ℕ} (pad_to - length b) option_pad)

-- A message whose fields fit the header is packed without an error, into at least 300 bytes.
pub pack-total : (m : Message) → FitsHeader m → (b : Bytes) × (pack m ≡ ok b) × (300 ≤ length b)
pack-total m w = (packed m, pack-packed m w, length-packed m)

packed-ok : (x y : Bytes) → ◌≡◌ {A = Result Error Bytes} (ok x) (ok y) → x ≡ y
packed-ok x y h = ground arith

-- Where a message is packed into no more bytes than a datagram holds, `Unpack` makes the same
-- message of them, if its fields fit the header, its addresses are IPv4, and its options have
-- distinct codes, none of them structural and none of them 52.
pub unpack-pack :
    (m : Message) (ci yi si gi : ℕ) (b : Bytes)
    → FitsHeader m
    → ci < 2 ^ 32
    → yi < 2 ^ 32
    → si < 2 ^ 32
    → gi < 2 ^ 32
    → IsDecoded m.options
    → get m.options option_overload ≡ none
    → pack (with_addrs m ci yi si gi) ≡ ok b
    → length b ≤ max_message_len
    → unpack b ≡ ok (with_addrs m ci yi si gi)
unpack-pack m ci yi si gi b w hc hy hs hg distinct plain made small =
    let n = with_addrs m ci yi si gi in
    let rest = append_to m.options [] ++ room n in
    let same =
      packed-ok b (packed n) (sym made ∙ pack-packed n (fits_with_addrs m ci yi si gi w))
      ∙ packed-whole m ci yi si gi w in
    let back =
      parse_options-append_to_self m.options (room n) distinct (OverloadFits-none m.options plain)
      ∙ ap (λ k. (m.options, k)) (flags-none m.options 0 plain) in
    ap unpack same
    ∙ unpack-whole m ci yi si gi w rest n (subst (λ x. length x ≤ max_message_len) same small)
        (unpack_body-whole m ci yi si gi w rest back hc hy hs hg)
