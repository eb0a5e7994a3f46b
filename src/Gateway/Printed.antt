-- ===== src/Gateway/Printed.antt =====
-- The texts of internal/gateway/nftables/nftables.go tell IPv4 addresses apart: a number is read back from
-- its digits.
use dns_desktop.Common.{
  ℕ, zero, suc, ◌+◌, ◌-◌, ◌*◌, ◌/◌, ◌%◌, ◌^◌, ◌≡◌, ◌<◌, refl, sym, ap, ◌∙◌, inl, inr, Bool, true,
  false, ◌||◌, [], ◌∷◌, ◌++◌, append_assoc, Bytes, arith, ltb, Bool-cases, if◌then◌else◌,
}
use dns_desktop.Net.{v4}
use dns_desktop.Gateway.Nftables.{digits, decimal, addr_text}

abbrev is_no_digit : ℕ → Bool
is_no_digit c = ltb c b'0' || ltb b'9' c

-- The number that the digits at the front make behind what is read already, and what follows them.
unfoldable read : ℕ → Bytes → ℕ × Bytes
read n [] = (n, [])
read n (c ∷ cs) =
    let more = read (n * 10 + (c - b'0')) cs in if is_no_digit c then (n, c ∷ cs) else more

read-digit : (n d : ℕ) (rest : Bytes) → d < 10 → read n ((b'0' + d) ∷ rest) ≡ read (n * 10 + d) rest
unfolding read
read-digit n d rest small = rw (digit d small) (ap (λ k. read k rest) (omega arith))
  where
    digit : (d : ℕ) → d < 10 → is_no_digit (b'0' + d) ≡ false
    digit d h = ground arith

read-digits : (fuel n : ℕ) (rest : Bytes) → n < fuel → read 0 (digits fuel n rest) ≡ read n rest
read-digits zero n rest h = absurd (omega arith)
read-digits (suc fuel) n rest h = elim (Bool-cases (ltb n 10)) [
  | inl e ↦ rw e (read-digit 0 n rest (below e) ∙ ap (λ k. read k rest) (omega arith))
  | inr e ↦
      let large = above e in
      rw e (
        read-digits fuel (n / 10) ((b'0' + n % 10) ∷ rest) (omega arith)
        ∙ read-digit (n / 10) (n % 10) rest (omega arith)
        ∙ ap (λ k. read k rest) (omega arith))
]
  where
    below : ltb n 10 ≡ true → n < 10
    below e = ground arith

    above : ltb n 10 ≡ false → 9 < n
    above e = ground arith

digits-append : (fuel n : ℕ) (xs ys : Bytes) → digits fuel n xs ++ ys ≡ digits fuel n (xs ++ ys)
digits-append zero n xs ys = refl
digits-append (suc fuel) n xs ys = elim (Bool-cases (ltb n 10)) [
  | inl e ↦ rw e refl
  | inr e ↦ rw e (digits-append fuel (n / 10) ((b'0' + n % 10) ∷ xs) ys)
]

read-decimal : (n : ℕ) (rest : Bytes) → read 0 (decimal n ++ rest) ≡ read n rest
unfolding decimal
read-decimal n rest =
    ap (read 0) (digits-append (n + 1) n [] rest) ∙ read-digits (n + 1) n rest (omega arith)

read-end : (n c : ℕ) (rest : Bytes) → is_no_digit c ≡ true → read n (c ∷ rest) ≡ (n, c ∷ rest)
unfolding read
read-end n c rest h = rw h refl

-- A number and what follows it are those of the text.
decimal-parted :
    (n m c : ℕ) (xs ys : Bytes)
    → is_no_digit c ≡ true
    → decimal n ++ (c ∷ xs) ≡ decimal m ++ (c ∷ ys)
    → (n ≡ m) × (xs ≡ ys)
decimal-parted n m c xs ys h e =
    let both =
      sym (read-decimal n (c ∷ xs) ∙ read-end n c xs h)
      ∙ ap (read 0) e
      ∙ (read-decimal m (c ∷ ys) ∙ read-end m c ys h) in
    (ap (λ r. r.0) both, ap (λ r. behind r.1) both)
  where
    behind : Bytes → Bytes
    behind [] = []
    behind (x ∷ rest) = rest

parted :
    (p q r s rest : Bytes)
    → p ++ (b'.' ∷ []) ++ q ++ (b'.' ∷ []) ++ r ++ (b'.' ∷ []) ++ s ++ rest
      ≡ p ++ (b'.' ∷ (q ++ (b'.' ∷ (r ++ (b'.' ∷ (s ++ rest))))))
parted p q r s rest = simp append_assoc refl

-- Before a blank, different addresses have different texts.
pub addr_text-injective :
    (a b : ℕ) (rest : Bytes)
    → addr_text (v4 a) ++ (b' ' ∷ rest) ≡ addr_text (v4 b) ++ (b' ' ∷ rest)
    → a ≡ b
unfolding addr_text
addr_text-injective a b rest e =
    let whole =
      sym (
        parted (decimal (a / 2 ^ 24)) (decimal (a / 2 ^ 16 % 256)) (decimal (a / 2 ^ 8 % 256))
          (decimal (a % 256)) (b' ' ∷ rest))
      ∙ e
      ∙ parted (decimal (b / 2 ^ 24)) (decimal (b / 2 ^ 16 % 256)) (decimal (b / 2 ^ 8 % 256))
          (decimal (b % 256)) (b' ' ∷ rest) in
    let (first, e1) = decimal-parted (a / 2 ^ 24) (b / 2 ^ 24) b'.' _ _ refl whole in
    let (second, e2) = decimal-parted (a / 2 ^ 16 % 256) (b / 2 ^ 16 % 256) b'.' _ _ refl e1 in
    let (third, e3) = decimal-parted (a / 2 ^ 8 % 256) (b / 2 ^ 8 % 256) b'.' _ _ refl e2 in
    let (fourth, e4) = decimal-parted (a % 256) (b % 256) b' ' rest rest refl e3 in omega arith
