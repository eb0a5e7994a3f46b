-- ===== src/Dhcp/Message/Clean.antt =====
-- The names that `SanitiseName` and `HostName` return (internal/dhcp/message.go) are short and
-- printable.
use dns_desktop.Common.{
  ℕ, ◌+◌, ◌/◌, ◌%◌, ◌≤◌, ◌<◌, ◌≡◌, refl, sym, ap, ◌∙◌, Bool, true, false, Option, none, some, List,
  [], ◌∷◌, ◌++◌, Bytes, length, null, drop, arith, ◌==◌, ℕ_eq, ltb, leb, if◌then◌else◌,
  length-append, Bool-cases, inl, inr, All, append-nil, append_assoc,
}
use dns_desktop.Text.{
  runes, encode_rune, encode_runes, trim_space, length-encode_rune, length-trim_space,
  All-trim_space,
}
use dns_desktop.Dhcp.Types.{option_host_name, option_client_fqdn}
use dns_desktop.Dhcp.Options.{get, string, trim_right_nul}
use dns_desktop.Dhcp.Message.{Message, byte_at}
use dns_desktop.Dhcp.Message.Names.{
  max_name, is_control, sanitise_loop, sanitise_name, decode_dns_name, fqdn_name, name_or_fqdn,
  host_name,
}

-- Neither a control character of ASCII nor DEL.
abbrev pub IsPrintable : ℕ → Type 0
IsPrintable r = is_control r ≡ false

All-append : (P : ℕ → Type 0) (xs ys : List ℕ) → All P xs → All P ys → All P (xs ++ ys)
All-append P [] ys h k = k
All-append P (x ∷ xs) ys h k = (h.0, All-append P xs ys h.1 k)

-- A rune of two bytes or more has no byte below 0x80.
encode_rune-IsPrintable : (r : ℕ) → IsPrintable r → All IsPrintable (encode_rune r)
unfolding encode_rune
encode_rune-IsPrintable r h = ground arith

encode_runes-IsPrintable : (rs : List ℕ) → All IsPrintable rs → All IsPrintable (encode_runes rs)
unfolding encode_runes
encode_runes-IsPrintable [] h = tt
encode_runes-IsPrintable (r ∷ rs) h =
    All-append IsPrintable (encode_rune r) (encode_runes rs) (encode_rune-IsPrintable r h.0)
      (encode_runes-IsPrintable rs h.1)

encode_runes-append :
    (rs ts : List ℕ) → encode_runes (rs ++ ts) ≡ encode_runes rs ++ encode_runes ts
unfolding encode_runes
encode_runes-append [] ts = refl
encode_runes-append (r ∷ rs) ts =
    ap (λ b. encode_rune r ++ b) (encode_runes-append rs ts)
    ∙ sym (append_assoc (encode_rune r) (encode_runes rs) (encode_runes ts))

length-single : (r : ℕ) → length (encode_runes (r ∷ [])) ≤ 4
unfolding encode_runes
length-single r = rw (append-nil (encode_rune r)) (length-encode_rune r).1

length-grown :
    (sb : List ℕ) (r : ℕ) → length (encode_runes (sb ++ (r ∷ []))) ≤ length (encode_runes sb) + 4
length-grown sb r =
    rw (encode_runes-append sb (r ∷ []), length-append (encode_runes sb) (encode_runes (r ∷ [])))
      (omega (arith, length-single r))

abbrev Clean : List ℕ → Type 0
Clean rs = (length (encode_runes rs) ≤ 66) × All IsPrintable rs

trim_space-Clean : (rs : List ℕ) → Clean rs → Clean (trim_space rs)
trim_space-Clean rs h =
    (omega (arith, length-trim_space rs, h.0), All-trim_space IsPrintable rs h.1)

grown-Clean :
    (r : ℕ) (sb : List ℕ)
    → length (encode_runes sb) < 63
    → Clean sb
    → Clean (if is_control r then sb else sb ++ (r ∷ []))
grown-Clean r sb short h = elim (Bool-cases (is_control r)) [
  | inl c ↦ rw c h
  | inr c ↦ rw c (omega (arith, length-grown sb r), All-append IsPrintable sb (r ∷ []) h.1 (c, tt))
]

Clean-if : (b : Bool) (xs ys : List ℕ) → Clean xs → Clean ys → Clean (if b then xs else ys)
Clean-if true xs ys h k = h
Clean-if false xs ys h k = k

short_of_room : (n : ℕ) → leb max_name n ≡ false → n < 63
short_of_room n h = ground arith

sanitise_loop-Clean : (rs sb : List ℕ) → Clean sb → Clean (sanitise_loop rs sb)
unfolding sanitise_loop
sanitise_loop-Clean [] sb h = trim_space-Clean sb h
sanitise_loop-Clean (r ∷ rs) sb h = elim (Bool-cases (leb max_name (length (encode_runes sb)))) [
  | inl full ↦ rw full (trim_space-Clean sb h)
  | inr room ↦ rw room (
      let next = if is_control r then sb else sb ++ (r ∷ []) in
      Clean-if (r == 0) sb (sanitise_loop rs next) h (
        sanitise_loop-Clean rs next
          (grown-Clean r sb (short_of_room (length (encode_runes sb)) room) h)))
]

-- At most 66 bytes: one label of 63, and what the last rune is longer than one byte.
abbrev pub IsCleanName : Bytes → Type 0
IsCleanName s = (length s ≤ 66) × All IsPrintable s

sanitise_name-IsCleanName : (s : Bytes) → IsCleanName (sanitise_name s)
unfolding sanitise_name encode_runes
sanitise_name-IsCleanName s =
    let h = sanitise_loop-Clean (runes s) [] (omega arith, tt) in
    (h.0, encode_runes-IsPrintable (sanitise_loop (runes s) []) h.1)

-- Whatever name a client gives itself, in either option and in any encoding, `HostName` returns one
-- of at most 66 bytes, none of which is below 0x20 or is 0x7f. The control characters U+0080 to U+009F,
-- whose bytes are above, are not excluded.
pub host_name-IsCleanName : (m : Message) → IsCleanName (host_name m)
unfolding host_name name_or_fqdn fqdn_name
host_name-IsCleanName m =
    by_name (string m.options option_host_name) (by_fqdn (get m.options option_client_fqdn))
  where
    by_fqdn : (o : Option Bytes) → IsCleanName (fqdn_name o)
    by_fqdn none = (omega arith, tt)
    by_fqdn (some b) = elim (Bool-cases (ltb 3 (length b))) [
      | inl long ↦ rw long (elim (Bool-cases (byte_at b 0 / 4 % 2 == 1)) [
        | inl dns ↦ rw dns (sanitise_name-IsCleanName (decode_dns_name (drop 3 b)))
        | inr plain ↦ rw plain (sanitise_name-IsCleanName (trim_right_nul (drop 3 b)))
      ])
      | inr short ↦ rw short (omega arith, tt)
    ]

    by_name :
        (o : Option Bytes)
        → IsCleanName (fqdn_name (get m.options option_client_fqdn))
        → IsCleanName (name_or_fqdn o (get m.options option_client_fqdn))
    by_name none h = h
    by_name (some s) h = elim (Bool-cases (null s)) [
      | inl empty ↦ rw empty h
      | inr there ↦ rw there (sanitise_name-IsCleanName s)
    ]
