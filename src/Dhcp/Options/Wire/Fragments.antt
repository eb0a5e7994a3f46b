-- ===== src/Dhcp/Options/Wire/Fragments.antt =====
-- One option on the wire: the fragments that `append_option` writes are put together again by the
-- loop of `parse_options`.
use dns_desktop.Common.{
  ℕ, zero, suc, ◌≤◌, ◌<◌, ◌≡◌, ◌≢◌, refl, sym, ap, ◌∙◌, inl, inr, min, false, ◌&&◌, [], ◌∷◌, ◌++◌,
  append_assoc, append-nil, Bytes, length, null, take, drop, get_or, arith, ◌==◌, ℕ_eq, ltb,
  if◌then◌else◌, Bool-cases, length-append, take-append_length, drop-append_length, length-take,
  length-drop, take-all, drop-all, take-append-drop,
}
use dns_desktop.Dhcp.Types.{option_pad, option_end, option_overload}
use dns_desktop.Dhcp.Options.{Options}
use dns_desktop.Dhcp.Options.Wire.{append_option, add_fragment, parse_loop}

-- From the length of the input on, the fuel of the loop changes nothing: the loop ends by itself.
pub parse_loop-fuel :
    (f g : ℕ) (b : Bytes) (out : Options) (overload : ℕ)
    → length b ≤ f
    → length b ≤ g
    → parse_loop f b out overload ≡ parse_loop g b out overload
unfolding parse_loop
parse_loop-fuel zero zero [] out overload hf hg = refl
parse_loop-fuel zero (suc g) [] out overload hf hg = refl
parse_loop-fuel (suc f) zero [] out overload hf hg = refl
parse_loop-fuel (suc f) (suc g) [] out overload hf hg = refl
parse_loop-fuel zero g (c ∷ b) out overload hf hg = absurd (omega arith)
parse_loop-fuel (suc f) zero (c ∷ b) out overload hf hg = absurd (omega arith)
parse_loop-fuel (suc f) (suc g) (c ∷ []) out overload hf hg = refl
parse_loop-fuel (suc f) (suc g) (c ∷ n ∷ b) out overload hf hg = ground (
  arith,
  length-drop n b,
  parse_loop-fuel f g (n ∷ b) out overload,
  parse_loop-fuel f g (drop n b) (add_fragment out c (take n b))
      (if c == option_overload && n == 1 then get_or (take n b) 0 0 else overload),
)

abbrev pub parse : Bytes → Options → ℕ → Options × ℕ
parse b out overload = parse_loop (length b) b out overload

-- The overload flags after an instance of `code` with this data.
abbrev pub flags_after : ℕ → Bytes → ℕ → ℕ
flags_after code content overload =
    if code == option_overload && length content == 1 then get_or content 0 0 else overload

-- A round of the loop on an instance that fits.
parse_loop_step :
    (fuel code n : ℕ) (b : Bytes) (out : Options) (overload : ℕ)
    → code ≢ option_pad
    → code ≢ option_end
    → n ≤ length b
    → parse_loop (suc fuel) (code ∷ n ∷ b) out overload
      ≡ parse_loop fuel
          (drop n b)
          (add_fragment out code (take n b))
          (if code == option_overload && n == 1 then get_or (take n b) 0 0 else overload)
unfolding parse_loop
parse_loop_step fuel code n b out overload hp he hn = ground arith

-- One instance of a code.
parse-instance :
    (code : ℕ) (content rest : Bytes) (out : Options) (overload : ℕ)
    → code ≢ option_pad
    → code ≢ option_end
    → parse (code ∷ length content ∷ content ++ rest) out overload
      ≡ parse rest (add_fragment out code content) (flags_after code content overload)
parse-instance code content rest out overload hp he =
    parse_loop_step (suc (length (content ++ rest))) code (length content) (content ++ rest) out
      overload hp he (omega (arith, length-append content rest))
    ∙ rw (take-append_length content rest, drop-append_length content rest)
        (parse_loop-fuel (suc (length (content ++ rest))) (length rest) rest
          (add_fragment out code content) (flags_after code content overload)
          (omega (arith, length-append content rest)) (omega arith))

add_fragment-add_fragment :
    (out : Options) (code : ℕ) (x y : Bytes)
    → add_fragment (add_fragment out code x) code y ≡ add_fragment out code (x ++ y)
unfolding add_fragment
add_fragment-add_fragment [] code x y = ground arith
add_fragment-add_fragment (o ∷ out) code x y =
    ground (arith, add_fragment-add_fragment out code x y, append_assoc o.content x y)

-- What `append_option` has written already stays in front.
pub append_option-prefix :
    (fuel code : ℕ) (content b : Bytes)
    → append_option fuel code content b ≡ b ++ append_option fuel code content []
unfolding append_option
append_option-prefix zero code content b = sym (append-nil b)
append_option-prefix (suc fuel) code content b =
    let n = min (length content) 255 in
    let piece : Bytes = code ∷ n ∷ take n content in
    ground (
      arith,
      append_option-prefix fuel code (drop n content) (b ++ piece),
      append_option-prefix fuel code (drop n content) piece,
      append_assoc b piece (append_option fuel code (drop n content) []),
    )

-- A content that fits is one instance.
append_option_short :
    (fuel code : ℕ) (content : Bytes)
    → length content ≤ 255
    → append_option (suc fuel) code content [] ≡ code ∷ length content ∷ content
unfolding append_option
append_option_short fuel code content h =
    let e : min (length content) 255 ≡ length content = omega arith in
    rw (
      e,
      drop-all (length content) content (omega arith),
      take-all (length content) content (omega arith),
    )

null-drop : (n : ℕ) (xs : Bytes) → n < length xs → null (drop n xs) ≡ false
null-drop n [] h = absurd (omega arith)
null-drop zero (x ∷ xs) h = refl
null-drop (suc n) (x ∷ xs) h = null-drop n xs (omega arith)

-- A longer one is an instance of 255 bytes and the rest.
append_option_long :
    (fuel code : ℕ) (content : Bytes)
    → 255 < length content
    → append_option (suc fuel) code content []
      ≡ (code ∷ 255 ∷ take 255 content) ++ append_option fuel code (drop 255 content) []
unfolding append_option
append_option_long fuel code content h =
    let e : min (length content) 255 ≡ 255 = omega arith in
    rw (e, null-drop 255 content h)
      (append_option-prefix fuel code (drop 255 content) (code ∷ 255 ∷ take 255 content))

flags_after_other :
    (code overload : ℕ) (content : Bytes)
    → code ≢ option_overload
    → flags_after code content overload ≡ overload
flags_after_other code overload content h = ground arith

parse-instance_other :
    (n code : ℕ) (content rest : Bytes) (out : Options) (overload : ℕ)
    → n ≡ length content
    → code ≢ option_pad
    → code ≢ option_end
    → code ≢ option_overload
    → parse (code ∷ n ∷ content ++ rest) out overload
      ≡ parse rest (add_fragment out code content) overload
parse-instance_other n code content rest out overload e hp he ho = rw e (
    parse-instance code content rest out overload hp he
    ∙ ap (parse rest (add_fragment out code content)) (flags_after_other code overload content ho))

long_case :
    (fuel code : ℕ) (content rest : Bytes) (out : Options) (overload : ℕ)
    → code ≢ option_pad
    → code ≢ option_end
    → 255 < length content
    → parse
        (append_option fuel code (drop 255 content) [] ++ rest)
        (add_fragment out code (take 255 content))
        overload
      ≡ parse rest
          (add_fragment (add_fragment out code (take 255 content)) code (drop 255 content))
          (flags_after code (drop 255 content) overload)
    → code ≢ option_overload
    → parse
        (((code ∷ 255 ∷ take 255 content) ++ append_option fuel code (drop 255 content) []) ++ rest)
        out
        overload
      ≡ parse rest (add_fragment out code content) (flags_after code content overload)
long_case fuel code content rest out overload hp he h ih ho =
    let more = append_option fuel code (drop 255 content) [] in
    rw (append_assoc (take 255 content) more rest) (
      parse-instance_other 255 code (take 255 content) (more ++ rest) out overload
        (omega (arith, length-take 255 content)) hp he ho
      ∙ ih
      ∙ cc (
        add_fragment-add_fragment out code (take 255 content) (drop 255 content),
        take-append-drop 255 content,
        flags_after_other code overload content ho,
        flags_after_other code overload (drop 255 content) ho,
      ))

-- An option of any length is read back as one.
pub parse-append_option :
    (fuel code : ℕ) (content rest : Bytes) (out : Options) (overload : ℕ)
    → code ≢ option_pad
    → code ≢ option_end
    → length content < fuel
    → (code ≡ option_overload → length content ≤ 255)
    → parse (append_option fuel code content [] ++ rest) out overload
      ≡ parse rest (add_fragment out code content) (flags_after code content overload)
parse-append_option zero code content rest out overload hp he hf ho = absurd (omega arith)
parse-append_option (suc fuel) code content rest out overload hp he hf ho =
    elim (Bool-cases (ltb 255 (length content))) [
      | inr short ↦
          rw (append_option_short fuel code content (ground arith))
            (parse-instance code content rest out overload hp he)
      | inl long ↦ rw (append_option_long fuel code content (ground arith)) (
          long_case fuel code content rest out overload hp he (ground arith)
            (parse-append_option fuel code (drop 255 content) rest
              (add_fragment out code (take 255 content)) overload hp he
              (ground (arith, length-drop 255 content)) (λ e. absurd (ground (arith, ho e))))
            (λ e. ground (arith, ho e)))
    ]
