-- ===== src/Dhcp/Options/Wire/RoundTrip.antt =====
-- What `append_to` writes, `parse_options` reads back (internal/dhcp/option.go).
use dns_desktop.Common.{
  ℕ, suc, ◌≤◌, ◌≡◌, ◌≢◌, refl, sym, ap, ◌∙◌, inl, inr, Bool, false, ◌||◌, [], ◌∷◌, ◌++◌,
  append_assoc, append-nil, Bytes, length, arith, ◌==◌, ℕ_eq, if◌then◌else◌, Bool-cases, All,
}
use dns_desktop.Dhcp.Types.{option_pad, option_end, option_overload}
use dns_desktop.Dhcp.Options.{DhcpOption, Options}
use dns_desktop.Dhcp.Options.Wire.{
  append_option, append_options, append_to, add_fragment, parse_loop, parse_options,
}
use dns_desktop.Dhcp.Options.Wire.Fragments.{
  parse, flags_after, append_option-prefix, parse-append_option,
}

abbrev pub is_structural : ℕ → Bool
is_structural code = code == option_pad || code == option_end

-- The list that the receiver of `os` holds, if it held `out`: RFC 3396 concatenation, and the
-- structural codes left out.
unfoldable pub merge : Options → Options → Options
merge [] out = out
merge (o ∷ os) out =
    merge os (if is_structural o.code then out else add_fragment out o.code o.content)

unfoldable pub flags : Options → ℕ → ℕ
flags [] overload = overload
flags (o ∷ os) overload =
    flags os (if is_structural o.code then overload else flags_after o.code o.content overload)

-- An option 52 is not so long that it is split.
abbrev pub OverloadFits : DhcpOption → Type 0
OverloadFits o = o.code ≡ option_overload → length o.content ≤ 255

pub append_options-prefix :
    (os : Options) (b : Bytes) → append_options os b ≡ b ++ append_options os []
unfolding append_options
append_options-prefix [] b = sym (append-nil b)
append_options-prefix (o ∷ os) b = elim (Bool-cases (is_structural o.code)) [
  | inl e ↦ rw e (append_options-prefix os b)
  | inr e ↦ rw e (
      let piece = append_option (suc (length o.content)) o.code o.content in
      append_options-prefix os (piece b)
      ∙ ap (λ c. c ++ append_options os [])
          (append_option-prefix (suc (length o.content)) o.code o.content b)
      ∙ append_assoc b (piece []) (append_options os [])
      ∙ ap (λ c. b ++ c) (sym (append_options-prefix os (piece []))))
]

plain_code : (code : ℕ) → is_structural code ≡ false → (code ≢ option_pad) × (code ≢ option_end)
plain_code code h = ground arith

parse-append_options :
    (os : Options) (rest : Bytes) (out : Options) (overload : ℕ)
    → All OverloadFits os
    → parse (append_options os [] ++ rest) out overload
      ≡ parse rest (merge os out) (flags os overload)
unfolding append_options merge flags
parse-append_options [] rest out overload h = refl
parse-append_options (o ∷ os) rest out overload h = elim (Bool-cases (is_structural o.code)) [
  | inl e ↦ rw e (parse-append_options os rest out overload h.1)
  | inr e ↦ rw e (
      let piece = append_option (suc (length o.content)) o.code o.content [] in
      let (hp, he) = plain_code o.code e in
      ap (λ c. parse (c ++ rest) out overload) (append_options-prefix os piece)
      ∙ ap (λ c. parse c out overload) (append_assoc piece (append_options os []) rest)
      ∙ parse-append_option (suc (length o.content)) o.code o.content (append_options os [] ++ rest)
          out overload hp he (omega arith) h.0
      ∙ parse-append_options os rest _ _ h.1)
]

parse-end :
    (rest : Bytes) (out : Options) (overload : ℕ)
    → parse (option_end ∷ rest) out overload ≡ (out, overload)
unfolding parse_loop
parse-end [] out overload = refl
parse-end (x ∷ rest) out overload = refl

-- Whatever the list, if no option 52 in it is longer than 255 bytes, and whatever follows the
-- terminator, the receiver holds the list that results from appending each option's data to that of
-- its code so far, without the structural codes, and the flags of the option 52 in it.
pub parse_options-append_to :
    (os : Options) (rest : Bytes) (out : Options)
    → All OverloadFits os
    → parse_options (append_to os [] ++ rest) out ≡ (merge os out, flags os 0)
unfolding parse_options append_to
parse_options-append_to os rest out h =
    ap (λ c. parse c out 0) (append_assoc (append_options os []) (option_end ∷ []) rest)
    ∙ parse-append_options os (option_end ∷ rest) out 0 h
    ∙ parse-end rest (merge os out) (flags os 0)
