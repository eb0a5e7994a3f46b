-- ===== src/Text.antt =====
-- What the source uses of Go's text: the runes of a string (`for _, r := range s`), `WriteRune` and
-- `strings.TrimSpace`. A string is its bytes.
use dns_desktop.Common.{
  ℕ, zero, suc, ◌+◌, ◌*◌, ◌/◌, ◌%◌, ◌≤◌, ◌≡◌, Bool, ◌&&◌, ◌||◌, List, [], ◌∷◌, ◌++◌, Bytes, arith,
  ◌==◌, ℕ_eq, ltb, leb, if◌then◌else◌, length, length-append, Bool-cases, inl, inr, All,
}

abbrev pub rune_error : ℕ
rune_error = 0xfffd

abbrev within : ℕ → ℕ → ℕ → Bool
within lo hi b = leb lo b && leb b hi

-- A continuation byte.
abbrev is_tail : ℕ → Bool
is_tail b = within 0x80 0xbf b

-- The accepted second bytes after a first byte of three or of four.
abbrev second_of_three : ℕ → ℕ → Bool
second_of_three a b =
    if a == 0xe0 then within 0xa0 0xbf b else if a == 0xed then within 0x80 0x9f b else is_tail b

abbrev second_of_four : ℕ → ℕ → Bool
second_of_four a b =
    if a == 0xf0 then within 0x90 0xbf b else if a == 0xf4 then within 0x80 0x8f b else is_tail b

-- `utf8.DecodeRune` on a first byte and what follows it: the rune, and how many of the following
-- bytes it takes. Bytes that are no UTF-8 are U+FFFD, one byte at a time.
rune_of_two : ℕ → Bytes → ℕ × ℕ
rune_of_two a (b ∷ _) = if is_tail b then (a % 32 * 64 + b % 64, 1) else (rune_error, 0)
rune_of_two a _ = (rune_error, 0)

rune_of_three : ℕ → Bytes → ℕ × ℕ
rune_of_three a (b ∷ c ∷ _) =
    if second_of_three a b && is_tail c
    then (a % 16 * 4096 + b % 64 * 64 + c % 64, 2)
    else (rune_error, 0)
rune_of_three a _ = (rune_error, 0)

rune_of_four : ℕ → Bytes → ℕ × ℕ
rune_of_four a (b ∷ c ∷ d ∷ _) =
    if second_of_four a b && is_tail c && is_tail d
    then (a % 8 * 262144 + b % 64 * 4096 + c % 64 * 64 + d % 64, 3)
    else (rune_error, 0)
rune_of_four a _ = (rune_error, 0)

decode_rune : ℕ → Bytes → ℕ × ℕ
unfolding rune_of_two rune_of_three rune_of_four
decode_rune a rest =
    if ltb a 0x80
    then (a, 0)
    else if within 0xc2 0xdf a
    then rune_of_two a rest
    else if within 0xe0 0xef a
    then rune_of_three a rest
    else if within 0xf0 0xf4 a
    then rune_of_four a rest
    else (rune_error, 0)

-- The runes of a string, with the number of bytes to pass over first.
runes_after : ℕ → Bytes → List ℕ
runes_after skip [] = []
runes_after (suc skip) (a ∷ rest) = runes_after skip rest
runes_after zero (a ∷ rest) = let (r, taken) = decode_rune a rest in r ∷ runes_after taken rest

unfoldable pub runes : Bytes → List ℕ
unfolding runes_after decode_rune
runes s = runes_after 0 s

-- `utf8.AppendRune`. The runes that `runes` yields are never surrogates.
unfoldable pub encode_rune : ℕ → Bytes
encode_rune r =
    if ltb r 0x80
    then r ∷ []
    else if ltb r 0x800
    then (0xc0 + r / 64) ∷ (0x80 + r % 64) ∷ []
    else if ltb r 0x10000
    then (0xe0 + r / 4096) ∷ (0x80 + r / 64 % 64) ∷ (0x80 + r % 64) ∷ []
    else (0xf0 + r / 262144) ∷ (0x80 + r / 4096 % 64) ∷ (0x80 + r / 64 % 64) ∷ (0x80 + r % 64) ∷ []

unfoldable pub encode_runes : List ℕ → Bytes
unfolding encode_rune
encode_runes [] = []
encode_runes (r ∷ rs) = encode_rune r ++ encode_runes rs

-- `unicode.IsSpace`
unfoldable pub is_space : ℕ → Bool
is_space r =
    within 9 13 r
    || r == 0x20
    || r == 0x85
    || r == 0xa0
    || r == 0x1680
    || within 0x2000 0x200a r
    || r == 0x2028
    || r == 0x2029
    || r == 0x202f
    || r == 0x205f
    || r == 0x3000

trim_left : List ℕ → List ℕ
unfolding is_space
trim_left [] = []
trim_left (r ∷ rs) = let rest = trim_left rs in if is_space r then rest else r ∷ rs

-- Drops the spaces at the end.
before_trimmed : ℕ → List ℕ → List ℕ
unfolding is_space
before_trimmed r [] = if is_space r then [] else r ∷ []
before_trimmed r (x ∷ xs) = r ∷ x ∷ xs

trim_right : List ℕ → List ℕ
unfolding before_trimmed
trim_right [] = []
trim_right (r ∷ rs) = before_trimmed r (trim_right rs)

unfoldable pub trim_space : List ℕ → List ℕ
unfolding trim_left trim_right
trim_space rs = trim_right (trim_left rs)

-- A rune takes one to four bytes.
pub length-encode_rune : (r : ℕ) → (1 ≤ length (encode_rune r)) × (length (encode_rune r) ≤ 4)
unfolding encode_rune
length-encode_rune r = ground arith

abbrev size : List ℕ → ℕ
size rs = length (encode_runes rs)

size-cons : (r : ℕ) (rs : List ℕ) → size (r ∷ rs) ≡ length (encode_rune r) + size rs
unfolding encode_runes
size-cons r rs = length-append (encode_rune r) (encode_runes rs)

size-before_trimmed : (r : ℕ) (rs : List ℕ) → size (before_trimmed r rs) ≤ size (r ∷ rs)
unfolding before_trimmed
size-before_trimmed r [] = elim (Bool-cases (is_space r)) [
  | inl e ↦ rw e (unfold encode_runes in omega arith)
  | inr e ↦ rw e (omega arith)
]
size-before_trimmed r (x ∷ xs) = omega arith

size-trim_right : (rs : List ℕ) → size (trim_right rs) ≤ size rs
unfolding trim_right
size-trim_right [] = omega arith
size-trim_right (r ∷ rs) = omega (
  arith,
  size-before_trimmed r (trim_right rs),
  size-trim_right rs,
  size-cons r rs,
  size-cons r (trim_right rs),
)

size-trim_left : (rs : List ℕ) → size (trim_left rs) ≤ size rs
unfolding trim_left
size-trim_left [] = omega arith
size-trim_left (r ∷ rs) = elim (Bool-cases (is_space r)) [
  | inl e ↦ rw e (omega (arith, size-trim_left rs, size-cons r rs))
  | inr e ↦ rw e (omega arith)
]

-- Trimming makes no text longer.
pub length-trim_space :
    (rs : List ℕ) → length (encode_runes (trim_space rs)) ≤ length (encode_runes rs)
unfolding trim_space
length-trim_space rs = omega (arith, size-trim_right (trim_left rs), size-trim_left rs)

All-before_trimmed :
    (P : ℕ → Type 0) (r : ℕ) (rs : List ℕ) → P r → All P rs → All P (before_trimmed r rs)
unfolding before_trimmed
All-before_trimmed P r [] p h = elim (Bool-cases (is_space r)) [
  | inl e ↦ rw e tt
  | inr e ↦ rw e (p, tt)
]
All-before_trimmed P r (x ∷ xs) p h = (p, h)

All-trim_right : (P : ℕ → Type 0) (rs : List ℕ) → All P rs → All P (trim_right rs)
unfolding trim_right
All-trim_right P [] h = tt
All-trim_right P (r ∷ rs) h = All-before_trimmed P r (trim_right rs) h.0 (All-trim_right P rs h.1)

All-trim_left : (P : ℕ → Type 0) (rs : List ℕ) → All P rs → All P (trim_left rs)
unfolding trim_left
All-trim_left P [] h = tt
All-trim_left P (r ∷ rs) h = elim (Bool-cases (is_space r)) [
  | inl e ↦ rw e (All-trim_left P rs h.1)
  | inr e ↦ rw e h
]

-- What holds of every rune holds of those that are left.
pub All-trim_space : (P : ℕ → Type 0) (rs : List ℕ) → All P rs → All P (trim_space rs)
unfolding trim_space
All-trim_space P rs h = All-trim_right P (trim_left rs) (All-trim_left P rs h)
