-- ===== src/Dhcp/Message/Layout.antt =====
-- Where the fields of a packed message stand (internal/dhcp/message.go).
use dns_desktop.Common.{
  ℕ, zero, suc, ◌+◌, ◌-◌, ◌^◌, ◌≤◌, ◌<◌, ◌≡◌, ◌≢◌, refl, sym, ap, ◌∙◌, min, [], ◌∷◌, ◌++◌,
  append_assoc, Bytes, length, take, drop, replicate, get_or, arith, ℕ_eq, All, length-append,
  length-replicate, take-append_length, drop-append_length,
}
use dns_desktop.Net.{v4, be16, be32}
use dns_desktop.Dhcp.Types.{option_end}
use dns_desktop.Dhcp.Options.{Options}
use dns_desktop.Dhcp.Options.Wire.{append_to, append_options}
use dns_desktop.Dhcp.Options.Wire.RoundTrip.{append_options-prefix}
use dns_desktop.Dhcp.Message.{
  Message, trim_nul, fixed, header, chaddr_len, sname_len, file_len, magic_cookie,
}

-- The address fields of a message that are IPv4 addresses.
abbrev pub with_addrs : Message → ℕ → ℕ → ℕ → ℕ → Message
with_addrs m ci yi si gi = record m {
  ciaddr = v4 ci;
  yiaddr = v4 yi;
  siaddr = v4 si;
  giaddr = v4 gi;
}

pub length-fixed : (s : Bytes) (n : ℕ) → length s ≤ n → length (fixed s n) ≡ n
length-fixed s n h =
    rw (length-append s (replicate (n - length s) 0), length-replicate {A = ℕ} (n - length s) 0)
      (omega arith)

-- What stands before the first zero byte of a text without one that has been padded.
abbrev pub NoNul : Bytes → Type 0
NoNul s = All (λ x. x ≢ 0) s

pub trim_nul-zeros : (s : Bytes) (k : ℕ) → NoNul s → trim_nul (s ++ replicate k 0) ≡ s
unfolding trim_nul
trim_nul-zeros [] zero h = refl
trim_nul-zeros [] (suc k) h = refl
trim_nul-zeros (x ∷ s) k h = ground (arith, trim_nul-zeros s k h.1)

-- The bytes after the first 28.
abbrev pub fields : Message → Bytes → Bytes
fields m rest =
    fixed m.chaddr chaddr_len
    ++ (fixed m.sname sname_len ++ (fixed m.file file_len ++ (be32 magic_cookie ++ rest)))

pub append_to-front : (o : Options) (b : Bytes) → append_to o b ≡ b ++ append_to o []
unfolding append_to
append_to-front o b =
    ap (λ c. c ++ (option_end ∷ [])) (append_options-prefix o b)
    ∙ append_assoc b (append_options o []) (option_end ∷ [])

fields_assoc :
    (a b c d rest : Bytes) → (a ++ (b ++ (c ++ d))) ++ rest ≡ a ++ (b ++ (c ++ (d ++ rest)))
fields_assoc a b c d rest =
    append_assoc a (b ++ (c ++ d)) rest
    ∙ ap (λ x. a ++ x) (append_assoc b (c ++ d) rest ∙ ap (λ x. b ++ x) (append_assoc c d rest))

-- The fixed part of the header, byte by byte.
abbrev pub start : ℕ → ℕ → ℕ → ℕ → ℕ → ℕ → ℕ → ℕ → ℕ → ℕ → ℕ → Bytes → Bytes
start op htype hlen hops xid secs flag ci yi si gi t =
    op ∷ htype ∷ hlen ∷ hops ∷ be32 xid
    ++ (be16 secs ++ (be16 flag ++ (be32 ci ++ (be32 yi ++ (be32 si ++ (be32 gi ++ t))))))

pub header-start :
    (m : Message) (ci yi si gi : ℕ) (rest : Bytes)
    → header (with_addrs m ci yi si gi) ++ rest
      ≡ start m.op m.htype m.hlen m.hops m.xid m.secs m.flags ci yi si gi (fields m rest)
header-start m ci yi si gi rest =
    ap (start m.op m.htype m.hlen m.hops m.xid m.secs m.flags ci yi si gi) (
      fields_assoc (fixed m.chaddr chaddr_len) (fixed m.sname sname_len) (fixed m.file file_len)
        (be32 magic_cookie) rest)

suc_add : (n k : ℕ) → suc n + k ≡ suc (n + k)
suc_add n k = omega arith

zero_add : (k : ℕ) → 0 + k ≡ k
zero_add k = omega arith

drop_all-nil : (k : ℕ) → drop {A = ℕ} k [] ≡ []
drop_all-nil zero = refl
drop_all-nil (suc k) = refl

drop-drop : (n k : ℕ) (b : Bytes) → drop (n + k) b ≡ drop k (drop n b)
drop-drop zero k b = ap (λ j. drop j b) (zero_add k)
drop-drop (suc n) k [] = drop_all-nil (suc n + k) ∙ sym (drop_all-nil k)
drop-drop (suc n) k (x ∷ b) = ap (λ j. drop j (x ∷ b)) (suc_add n k) ∙ drop-drop n k b

get_or-drop : (n k : ℕ) (b : Bytes) → get_or b (n + k) 0 ≡ get_or (drop n b) k 0
get_or-drop zero k b = ap (λ j. get_or b j 0) (zero_add k)
get_or-drop (suc n) k [] = refl
get_or-drop (suc n) k (x ∷ b) = ap (λ j. get_or (x ∷ b) j 0) (suc_add n k) ∙ get_or-drop n k b

-- A cut at the seam, where the length is known.
drop_seam : (n : ℕ) (xs ys : Bytes) → length xs ≡ n → drop n (xs ++ ys) ≡ ys
drop_seam n xs ys h = ap (λ k. drop k (xs ++ ys)) (sym h) ∙ drop-append_length xs ys

take_seam : (n : ℕ) (xs ys : Bytes) → length xs ≡ n → take n (xs ++ ys) ≡ xs
take_seam n xs ys h = ap (λ k. take k (xs ++ ys)) (sym h) ∙ take-append_length xs ys

-- The fields that the packed message has room for.
pub record FitsHeader (m : Message) : Type 0 where
  pub hw_len : length m.chaddr ≡ m.hlen
  pub hw_fits : m.hlen ≤ 16
  pub xid_word : m.xid < 2 ^ 32
  pub secs_short : m.secs < 2 ^ 16
  pub flags_short : m.flags < 2 ^ 16
  pub sname_fits : length m.sname < 64
  pub file_fits : length m.file < 128
  pub sname_text : NoNul m.sname
  pub file_text : NoNul m.file

module _ (m : Message) (rest : Bytes) (w : FitsHeader m) where
  after_chaddr :
      drop 16 (fields m rest)
      ≡ fixed m.sname sname_len ++ (fixed m.file file_len ++ (be32 magic_cookie ++ rest))
  after_chaddr =
      drop_seam 16 (fixed m.chaddr chaddr_len)
        (fixed m.sname sname_len ++ (fixed m.file file_len ++ (be32 magic_cookie ++ rest)))
        (length-fixed m.chaddr 16 (omega (arith, w.hw_len, w.hw_fits)))

  after_sname : drop 80 (fields m rest) ≡ fixed m.file file_len ++ (be32 magic_cookie ++ rest)
  after_sname =
      drop-drop 16 64 (fields m rest)
      ∙ (ap (drop 64) after_chaddr
          ∙ drop_seam 64 (fixed m.sname sname_len)
              (fixed m.file file_len ++ (be32 magic_cookie ++ rest))
              (length-fixed m.sname 64 (omega (arith, w.sname_fits))))

  after_file : drop 208 (fields m rest) ≡ be32 magic_cookie ++ rest
  after_file =
      drop-drop 80 128 (fields m rest)
      ∙ (ap (drop 128) after_sname
          ∙ drop_seam 128 (fixed m.file file_len) (be32 magic_cookie ++ rest)
              (length-fixed m.file 128 (omega (arith, w.file_fits))))

  pub after_cookie : drop 212 (fields m rest) ≡ rest
  after_cookie = drop-drop 208 4 (fields m rest) ∙ ap (drop 4) after_file

  pub cookie_byte :
      (k : ℕ) → get_or (fields m rest) (208 + k) 0 ≡ get_or (be32 magic_cookie ++ rest) k 0
  cookie_byte k = get_or-drop 208 k (fields m rest) ∙ ap (λ b. get_or b k 0) after_file

  pub chaddr_field : take (min m.hlen 16) (fields m rest) ≡ m.chaddr
  chaddr_field =
      let zeros = replicate {A = ℕ} (16 - length m.chaddr) 0 in
      let after =
        fixed m.sname sname_len ++ (fixed m.file file_len ++ (be32 magic_cookie ++ rest)) in
      ap (take (min m.hlen 16)) (append_assoc m.chaddr zeros after)
      ∙ take_seam (min m.hlen 16) m.chaddr (zeros ++ after) (omega (arith, w.hw_len, w.hw_fits))

  pub sname_field : take 64 (drop 16 (fields m rest)) ≡ fixed m.sname sname_len
  sname_field =
      ap (take 64) after_chaddr
      ∙ take_seam 64 (fixed m.sname sname_len)
          (fixed m.file file_len ++ (be32 magic_cookie ++ rest))
          (length-fixed m.sname 64 (omega (arith, w.sname_fits)))

  pub file_field : take 128 (drop 80 (fields m rest)) ≡ fixed m.file file_len
  file_field =
      ap (take 128) after_sname
      ∙ take_seam 128 (fixed m.file file_len) (be32 magic_cookie ++ rest)
          (length-fixed m.file 128 (omega (arith, w.file_fits)))
