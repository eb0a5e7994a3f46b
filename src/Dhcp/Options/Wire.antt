-- ===== src/Dhcp/Options/Wire.antt =====
-- The wire form of an option list: `appendTo`, `parseOptions` and `indexOf` of
-- internal/dhcp/option.go.
pub mod Fragments
pub mod RoundTrip
pub mod Decoded
use dns_desktop.Common.{
  ℕ, zero, suc, ◌+◌, ◌<◌, min, Bool, true, false, ◌&&◌, ◌||◌, Option, none, some, List, [], ◌∷◌,
  ◌++◌, Bytes, length, null, take, drop, get_or, ◌==◌, ℕ_eq, ltb, if◌then◌else◌,
}
use dns_desktop.Dhcp.Types.{option_pad, option_end, option_overload}
use dns_desktop.Dhcp.Options.{DhcpOption, Options}

-- One option of `appendTo`: as many instances of the code as its data needs, each of at most 255
-- bytes, and one instance of none if there is no data. Each round but the last takes 255 bytes, so
-- the length of the data is fuel enough.
unfoldable pub append_option : ℕ → ℕ → Bytes → Bytes → Bytes
append_option zero code content b = b
append_option (suc fuel) code content b =
    let n = min (length content) 255 in
    let b' = b ++ (code ∷ n ∷ take n content) in
    let rest = append_option fuel code (drop n content) b' in
    if null (drop n content) then b' else rest

unfoldable pub append_options : Options → Bytes → Bytes
unfolding append_option
append_options [] b = b
append_options (o ∷ os) b = append_options os (
    if o.code == option_pad || o.code == option_end
    then b
    else append_option (suc (length o.content)) o.code o.content b)

unfoldable pub append_to : Options → Bytes → Bytes
unfolding append_options
append_to o b = append_options o b ++ (option_end ∷ [])

-- `indexOf` finds the first option with the code, and the data is appended to it; with none, a new
-- option goes to the end of the list.
unfoldable pub add_fragment : Options → ℕ → Bytes → Options
add_fragment [] code content = record { code = code; content = content } ∷ []
add_fragment (o ∷ os) code content =
    if o.code == code
    then record o { content = o.content ++ content } ∷ os
    else o ∷ add_fragment os code content

-- The loop of `parseOptions`; `b` is what the index has not passed. Every round takes a byte at
-- least, so the length is fuel enough.
unfoldable pub parse_loop : ℕ → Bytes → Options → ℕ → Options × ℕ
parse_loop fuel [] out overload = (out, overload)
parse_loop zero (code ∷ b) out overload = (out, overload)
parse_loop (suc fuel) (code ∷ []) out overload = (out, overload)
parse_loop (suc fuel) (code ∷ n ∷ b) out overload =
    let skip = parse_loop fuel (n ∷ b) out overload in
    let content = take n b in
    let next =
      parse_loop fuel (drop n b) (add_fragment out code content)
        (if code == option_overload && n == 1 then get_or content 0 0 else overload) in
    if code == option_pad
    then skip
    else if code == option_end
    then (out, overload)
    else if ltb (length b) n
    then (out, overload)
    else next

unfoldable pub parse_options : Bytes → Options → Options × ℕ
unfolding parse_loop add_fragment
parse_options b out = parse_loop (length b) b out 0
