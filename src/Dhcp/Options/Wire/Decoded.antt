-- ===== src/Dhcp/Options/Wire/Decoded.antt =====
-- The lists that `parse_options` returns (internal/dhcp/option.go): one option for each code, and
-- no structural code. Such a list survives the wire unchanged.
use dns_desktop.Common.{
  ℕ, zero, suc, ◌≡◌, ◌≢◌, refl, sym, ap, ◌∙◌, false, none, [], ◌∷◌, ◌++◌, append_assoc, append-nil,
  Bytes, length, take, drop, get_or, arith, ◌==◌, ◌&&◌, ℕ_eq, if◌then◌else◌, All,
}
use dns_desktop.Dhcp.Types.{option_overload}
use dns_desktop.Dhcp.Options.{DhcpOption, Options, get}
use dns_desktop.Dhcp.Options.Wire.{append_to, add_fragment, parse_loop, parse_options}
use dns_desktop.Dhcp.Options.Wire.RoundTrip.{
  is_structural, merge, flags, OverloadFits, parse_options-append_to,
}

abbrev pub IsDecoded : Options → Type 0
IsDecoded [] = Unit
IsDecoded (o ∷ os) = (is_structural o.code ≡ false) × (get os o.code ≡ none) × IsDecoded os

get-add_fragment_ne :
    (os : Options) (c d : ℕ) (x : Bytes) → c ≢ d → get (add_fragment os c x) d ≡ get os d
unfolding get add_fragment
get-add_fragment_ne [] c d x h = ground arith
get-add_fragment_ne (o ∷ os) c d x h = ground (arith, get-add_fragment_ne os c d x)

add_fragment-IsDecoded :
    (os : Options) (c : ℕ) (x : Bytes)
    → is_structural c ≡ false
    → IsDecoded os
    → IsDecoded (add_fragment os c x)
unfolding add_fragment
add_fragment-IsDecoded [] c x h v = (h, unfold get in refl, tt)
add_fragment-IsDecoded (o ∷ os) c x h v =
    ground (arith, add_fragment-IsDecoded os c x, get-add_fragment_ne os c o.code x)

parse_loop-IsDecoded :
    (fuel : ℕ) (b : Bytes) (out : Options) (overload : ℕ)
    → IsDecoded out
    → IsDecoded (parse_loop fuel b out overload).0
unfolding parse_loop
parse_loop-IsDecoded fuel [] out overload v = v
parse_loop-IsDecoded zero (c ∷ b) out overload v = v
parse_loop-IsDecoded (suc fuel) (c ∷ []) out overload v = v
parse_loop-IsDecoded (suc fuel) (c ∷ n ∷ b) out overload v = ground (
  arith,
  parse_loop-IsDecoded fuel (n ∷ b) out overload v,
  add_fragment-IsDecoded out c (take n b),
  parse_loop-IsDecoded fuel (drop n b) (add_fragment out c (take n b))
      (if c == option_overload && n == 1 then get_or (take n b) 0 0 else overload),
)

-- From any bytes at all, a list of options with distinct codes that are not structural grows to one
-- with distinct codes that are not structural.
pub parse_options-IsDecoded :
    (b : Bytes) (out : Options) → IsDecoded out → IsDecoded (parse_options b out).0
unfolding parse_options
parse_options-IsDecoded b out v = parse_loop-IsDecoded (length b) b out 0 v

add_fragment_new :
    (os : Options) (c : ℕ) (x : Bytes)
    → get os c ≡ none
    → add_fragment os c x ≡ os ++ (record { code = c; content = x } ∷ [])
unfolding get add_fragment
add_fragment_new [] c x h = refl
add_fragment_new (o ∷ os) c x h = ground (arith, add_fragment_new os c x)

get-append :
    (os : Options) (o : DhcpOption) (d : ℕ)
    → get os d ≡ none
    → o.code ≢ d
    → get (os ++ (o ∷ [])) d ≡ none
unfolding get
get-append [] o d h e = ground arith
get-append (p ∷ os) o d h e = ground (arith, get-append os o d)

abbrev AllNew : Options → Options → Type 0
AllNew out os = All (λ p. get out p.code ≡ none) os

AllNew-append :
    (os out : Options) (o : DhcpOption)
    → AllNew out os
    → get os o.code ≡ none
    → AllNew (out ++ (o ∷ [])) os
unfolding get
AllNew-append [] out o h e = tt
AllNew-append (p ∷ os) out o h e =
    (get-append out o p.code h.0 (ground arith), AllNew-append os out o h.1 (ground arith))

merge-append : (os out : Options) → IsDecoded os → AllNew out os → merge os out ≡ out ++ os
unfolding merge
merge-append [] out v h = sym (append-nil out)
merge-append (o ∷ os) out v h =
    rw (v.0, add_fragment_new out o.code o.content h.0)
      (merge-append os (out ++ (o ∷ [])) v.2 (AllNew-append os out o h.1 v.1)
        ∙ append_assoc out (o ∷ []) os)

AllNew-nil : (os : Options) → AllNew [] os
unfolding get
AllNew-nil [] = tt
AllNew-nil (o ∷ os) = (refl, AllNew-nil os)

-- A list of options with distinct codes that are not structural comes back from the wire as it was,
-- whatever follows it there, if no option 52 in it is longer than 255 bytes.
pub parse_options-append_to_self :
    (os : Options) (rest : Bytes)
    → IsDecoded os
    → All OverloadFits os
    → parse_options (append_to os [] ++ rest) [] ≡ (os, flags os 0)
parse_options-append_to_self os rest v h =
    parse_options-append_to os rest [] h
    ∙ ap (λ l. (l, flags os 0)) (merge-append os [] v (AllNew-nil os))
