-- ===== src/Gateway/Linux/Record.antt =====
-- The record of the address that internal/gateway/linux_session.go keeps in the journal can be read back:
-- an address has no "@".
use dns_desktop.Common.{
  ℕ, zero, suc, ◌+◌, ◌%◌, ◌/◌, ◌^◌, ◌≡◌, refl, inl, inr, true, false, some, [], ◌∷◌, ◌++◌, Bytes,
  arith, ◌==◌, ℕ_eq, ltb, Bool-cases, eq_of_true, ◌<◌,
}
use dns_desktop.Net.{Addr, v4, v6, no_addr, bits}
use dns_desktop.Gateway.Nftables.{codes, digits, decimal, addr_text}
use dns_desktop.Gateway.Linux.{cut_at}
use dns_desktop.Gateway.Linux.Session.{Setup, cidr, address_record}

abbrev NoAt : Bytes → Type 0
NoAt [] = Unit
NoAt (c ∷ cs) = ((c == b'@') ≡ false) × NoAt cs

append-NoAt : (xs ys : Bytes) → NoAt xs → NoAt ys → NoAt (xs ++ ys)
append-NoAt [] ys h k = k
append-NoAt (x ∷ xs) ys (e, h) k = (e, append-NoAt xs ys h k)

cut_at-record : (xs ys : Bytes) → NoAt xs → cut_at (xs ++ codes "@" ++ ys) ≡ some (xs, ys)
unfolding cut_at
cut_at-record [] ys h = refl
cut_at-record (x ∷ xs) ys (e, h) = rw e (rw (cut_at-record xs ys h) refl)

digit_no_at : (d : ℕ) → d < 10 → (b'0' + d == b'@') ≡ false
digit_no_at d h = elim (Bool-cases (b'0' + d == b'@')) [
  | inl e ↦ absurd (too_far (eq_of_true (b'0' + d) b'@' e))
  | inr e ↦ e
]
  where
    too_far : b'0' + d ≡ b'@' → ⊥
    too_far e = omega arith

digits-NoAt : (fuel n : ℕ) (rest : Bytes) → NoAt rest → NoAt (digits fuel n rest)
digits-NoAt zero n rest h = h
digits-NoAt (suc fuel) n rest h = elim (Bool-cases (ltb n 10)) [
  | inl e ↦ rw e (digit_no_at n (below e), h)
  | inr e ↦
      rw e
        (digits-NoAt fuel (n / 10) ((b'0' + n % 10) ∷ rest) (digit_no_at (n % 10) (omega arith), h))
]
  where
    below : ltb n 10 ≡ true → n < 10
    below e = ground arith

decimal-NoAt : (n : ℕ) → NoAt (decimal n)
unfolding decimal
decimal-NoAt n = digits-NoAt (n + 1) n [] tt

parted-NoAt :
    (xs : Bytes) (c n : ℕ) → NoAt xs → (c == b'@') ≡ false → NoAt (xs ++ (c ∷ []) ++ decimal n)
parted-NoAt xs c n h e =
    append-NoAt (xs ++ (c ∷ [])) (decimal n) (append-NoAt xs (c ∷ []) h (e, tt)) (decimal-NoAt n)

addr_text-NoAt : (a : Addr) → NoAt (addr_text a)
unfolding addr_text
addr_text-NoAt (v4 a) =
    parted-NoAt _ b'.' (a % 256)
      (parted-NoAt _ b'.' (a / 2 ^ 8 % 256)
        (parted-NoAt _ b'.' (a / 2 ^ 16 % 256) (decimal-NoAt (a / 2 ^ 24)) refl) refl)
      refl
addr_text-NoAt no_addr = tt
addr_text-NoAt (v6 a) = tt

-- What removeAddress reads of the record is what `ip addr replace` was told.
pub cut_at-address_record : (s : Setup) → cut_at (address_record s) ≡ some (cidr s.config, s.iface)
unfolding address_record cidr
cut_at-address_record s = cut_at-record (cidr s.config) s.iface (
    parted-NoAt (addr_text s.config.addr) b'/' (bits s.config.subnet) (addr_text-NoAt s.config.addr)
      refl)
