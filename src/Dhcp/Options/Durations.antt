-- ===== src/Dhcp/Options/Durations.antt =====
-- Durations on the wire (`SetDuration` and `Duration` of internal/dhcp/option.go).
use dns_desktop.Common.{
  ℕ, zero, suc, ◌-◌, ◌*◌, ◌/◌, ◌%◌, ◌^◌, ◌≤◌, ◌<◌, ◌≡◌, refl, false, some, arith, ℕ_eq, leb,
  Bool-cases, inl, inr,
}
use dns_desktop.Common.Int.{pos}
use dns_desktop.Dhcp.Options.{
  Options, get, uint32, duration, second, seconds, top_bit, infinite_seconds, set_uint32,
  set_duration,
}
use dns_desktop.Dhcp.Options.Laws.{uint32-set_uint32}

top_bit-le : (k n : ℕ) → top_bit k n ≤ n
unfolding top_bit
top_bit-le zero n = omega arith
top_bit-le (suc k) n = elim (Bool-cases (leb (2 ^ k) n)) [
  | inl le ↦ rw le (ground arith)
  | inr gt ↦ rw gt (top_bit-le k n)
]

rounds_down :
    (w r b : ℕ)
    → w < 8388608
    → r < second
    → b ≤ w
    → leb ((second - r) * 2 ^ 53) (second * b) ≡ false
rounds_down w r b h hr hb = ground arith

-- Below 2^23 seconds the float64 that the source computes with has its integer part exact.
seconds-whole : (d : ℕ) → d / second < 8388608 → seconds d ≡ d / second
unfolding seconds
seconds-whole d h =
    rw
      (rounds_down (d / second) (d % second) (top_bit 34 (d / second)) h (omega arith)
        (top_bit-le 34 (d / second)))
      refl

duration-set_uint32 :
    (o : Options) (c v : ℕ)
    → v < infinite_seconds
    → duration (set_uint32 o c v) c ≡ some (pos (v * second))
unfolding duration
duration-set_uint32 o c v h = rw (uint32-set_uint32 o c v (omega arith)) (ground arith)

set_duration-short :
    (o : Options) (c d : ℕ)
    → d / second < 8388608
    → set_duration o c (pos d) ≡ set_uint32 o c (d / second)
unfolding set_duration
set_duration-short o c d h = rw (seconds-whole d h) (ground arith)

-- A duration of less than 2^23 seconds (97 days) is read back as its whole seconds.
pub duration-set_duration :
    (o : Options) (c d : ℕ)
    → d / second < 8388608
    → duration (set_duration o c (pos d)) c ≡ some (pos (d / second * second))
duration-set_duration o c d h =
    rw (set_duration-short o c d h) (duration-set_uint32 o c (d / second) (omega arith))

-- A reading depends on the option alone.
pub duration-get : (o o' : Options) (c : ℕ) → get o c ≡ get o' c → duration o c ≡ duration o' c
unfolding duration uint32
duration-get o o' c h = rw h refl
