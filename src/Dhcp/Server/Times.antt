-- ===== src/Dhcp/Server/Times.antt =====
-- The three times that `fill` writes (internal/dhcp/server.go), as a client reads them.
use dns_desktop.Common.{
  ℕ, ◌*◌, ◌/◌, ◌≤◌, ◌<◌, ◌≡◌, refl, ap, ◌∙◌, true, false, some, arith, ℕ_eq, ltb,
}
use dns_desktop.Common.Int.{pos, wrap64, div_ℤ}
use dns_desktop.Net.{Prefix}
use dns_desktop.Dhcp.Types.{
  option_server_id, option_lease_time, option_renewal_time, option_rebinding_time,
}
use dns_desktop.Dhcp.Options.{Options, duration, second, set_addr, set_duration}
use dns_desktop.Dhcp.Options.Durations.{duration-get, duration-set_duration}
use dns_desktop.Dhcp.Server.{ServerOptions}
use dns_desktop.Dhcp.Server.Fill.{fill, fill_times}
use dns_desktop.Dhcp.Server.Read.{is_config, fill_config_other, get-set_duration_other}

seven_eighths : (t : ℕ) → t / second < 8388608 → div_ℤ (wrap64 (t * 7)) 8 ≡ pos (t * 7 / 8)
seven_eighths t h = ground arith

-- The three writes.
abbrev timed : Options → ℕ → ℕ → ℕ → Options
timed o lease renewal rebinding =
    set_duration
      (set_duration (set_duration o option_lease_time (pos lease)) option_renewal_time
        (pos renewal))
      option_rebinding_time (pos rebinding)

fill_times-timed :
    (o : Options) (t : ℕ)
    → 0 < t
    → t / second < 8388608
    → fill_times o t ≡ timed o t (t / 2) (t * 7 / 8)
fill_times-timed o t positive h = rw (positive_test t positive, seven_eighths t h) refl
  where
    positive_test : (t : ℕ) → 0 < t → ltb 0 t ≡ true
    positive_test t p = ground arith

module _ (o : Options) (lease renewal rebinding : ℕ) where
  lease_read :
      lease / second < 8388608
      → duration (timed o lease renewal rebinding) option_lease_time
        ≡ some (pos (lease / second * second))
  lease_read h =
      let o1 = set_duration o option_lease_time (pos lease) in
      let o2 = set_duration o1 option_renewal_time (pos renewal) in
      duration-get (timed o lease renewal rebinding) o1 option_lease_time (
        get-set_duration_other o2 option_rebinding_time option_lease_time (pos rebinding) refl
        ∙ get-set_duration_other o1 option_renewal_time option_lease_time (pos renewal) refl)
      ∙ duration-set_duration o option_lease_time lease h

  renewal_read :
      renewal / second < 8388608
      → duration (timed o lease renewal rebinding) option_renewal_time
        ≡ some (pos (renewal / second * second))
  renewal_read h =
      let o1 = set_duration o option_lease_time (pos lease) in
      let o2 = set_duration o1 option_renewal_time (pos renewal) in
      duration-get (timed o lease renewal rebinding) o2 option_renewal_time
        (get-set_duration_other o2 option_rebinding_time option_renewal_time (pos rebinding) refl)
      ∙ duration-set_duration o1 option_renewal_time renewal h

  rebinding_read :
      rebinding / second < 8388608
      → duration (timed o lease renewal rebinding) option_rebinding_time
        ≡ some (pos (rebinding / second * second))
  rebinding_read h =
      let o1 = set_duration o option_lease_time (pos lease) in
      duration-set_duration (set_duration o1 option_renewal_time (pos renewal))
        option_rebinding_time rebinding h

-- What a client reads in a reply at the three codes.
abbrev pub Times : Options → ℕ → ℕ → ℕ → Type 0
Times o lease renewal rebinding =
    (duration o option_lease_time ≡ some (pos (lease / second * second)))
    × (duration o option_renewal_time ≡ some (pos (renewal / second * second)))
    × (duration o option_rebinding_time ≡ some (pos (rebinding / second * second)))

-- For a lease time that is not 0 and less than 2^23 seconds (97 days), a client reads the lease
-- time, half of it as the renewal time and seven eighths of it as the rebinding time, each in whole
-- seconds, so that renewal comes no later than rebinding and rebinding no later than the end.
pub fill-Times :
    (opts : ServerOptions) (sub : Prefix) (o : Options) (t : ℕ)
    → 0 < t
    → t / second < 8388608
    → Times (fill opts sub o t) t (t / 2) (t * 7 / 8)
      × (t / 2 / second ≤ t * 7 / 8 / second)
      × (t * 7 / 8 / second ≤ t / second)
unfolding fill
fill-Times opts sub o t positive h =
    let o1 = set_addr o option_server_id opts.server_id in
    let same = fill_times-timed o1 t positive h in
    let filled = fill_times o1 t in
    (
      (
        read option_lease_time refl same ∙ lease_read o1 t (t / 2) (t * 7 / 8) h,
        read option_renewal_time refl same ∙ renewal_read o1 t (t / 2) (t * 7 / 8) (omega arith),
        read option_rebinding_time refl same
            ∙ rebinding_read o1 t (t / 2) (t * 7 / 8) (omega arith),
      ),
      omega arith,
      omega arith,
    )
  where
    read :
        (d : ℕ)
        → is_config d ≡ false
        → fill_times (set_addr o option_server_id opts.server_id) t
          ≡ timed (set_addr o option_server_id opts.server_id) t (t / 2) (t * 7 / 8)
        → duration (fill opts sub o t) d
          ≡ duration (timed (set_addr o option_server_id opts.server_id) t (t / 2) (t * 7 / 8)) d
    read d plain same =
        duration-get (fill opts sub o t) (fill_times (set_addr o option_server_id opts.server_id) t)
          d
          (fill_config_other opts sub (fill_times (set_addr o option_server_id opts.server_id) t) d
            plain)
        ∙ ap (λ x. duration x d) same
