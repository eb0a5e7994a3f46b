-- ===== src/Gateway/Linux/Agree.antt =====
-- A running session of internal/gateway/linux_session.go knows what the firewall does: SetDNSCapture and
-- Block, over every sequence of calls.
use dns_desktop.Common.{
  ◌≡◌, refl, sym, ap, ◌∙◌, subst, Bool, true, false, ◌&&◌, Option, none, some, List, [], ◌∷◌, Bytes,
  Result, ok, err, ◌==◌, if◌then◌else◌, arith,
}
use dns_desktop.Common.Elems.{elem, elem-delete_all}
use dns_desktop.Net.{Addr, addr_eq_instance}
use dns_desktop.Gateway.Nftables.{RuleError, capture, block}
use dns_desktop.Gateway.Linux.{
  JournalFile, LinuxError, Command, nft_script, Act, ◌>>=◌, return, attempt, execute, succeeds,
}
use dns_desktop.Gateway.Linux.Live.{
  Live, captured, marked, replied, is_degraded, capture_with, block_with, switch_capture,
  switch_block, state_running,
}
use dns_desktop.Gateway.Linux.Settled.{fresh, Settles, Settles-bind, Attempted, execute-Settles}

-- The calls of the program on a running session, of which it drops the errors.
pub data LiveCall : Type 0 where
  captures_dns : Bool → LiveCall
  blocks_addr : Addr → Bool → LiveCall

module _ {M : Type 0} (run : M → Command → M × Option Bytes) where
  unfoldable pub live_step : Live → LiveCall → Act M (Live × Result LinuxError Unit)
  unfolding switch_capture switch_block
  live_step l (captures_dns on) = switch_capture run l on
  live_step l (blocks_addr a on) = switch_block run l a on

  unfoldable pub live_run : List LiveCall → Live → Act M Live
  unfolding live_step
  live_run [] l = return l
  live_run (c ∷ cs) l = do result ← live_step l c; live_run cs (result.0)

-- What nft does with the scripts: a transaction that fails changes nothing, and one that succeeds changes
-- the set that it names. A machine is observed by whether it captures the DNS of the interface and which
-- addresses it blocks.
pub record IsFirewall {M : Type 0} (run : M → Command → M × Option Bytes) (iface : Bytes)
    (redirects : M → Bool) (drops : M → Addr → Bool) : Type 0 where
  pub switches :
      (m : M) (on : Bool) (text : Bytes)
      → capture iface on ≡ ok text
      → redirects (run m (nft_script text)).0
        ≡ (if succeeds (run m (nft_script text)).1 then on else redirects m)
  pub switch_keeps :
      (m : M) (on : Bool) (text : Bytes) (b : Addr)
      → capture iface on ≡ ok text
      → drops (run m (nft_script text)).0 b ≡ drops m b
  pub marks :
      (m : M) (a : Addr) (on : Bool) (text : Bytes) (b : Addr)
      → block a on ≡ ok text
      → drops (run m (nft_script text)).0 b
        ≡ (if succeeds (run m (nft_script text)).1 && (a == b) then on else drops m b)
  pub mark_keeps :
      (m : M) (a : Addr) (on : Bool) (text : Bytes)
      → block a on ≡ ok text
      → redirects (run m (nft_script text)).0 ≡ redirects m

-- What the session says and what the machine does.
abbrev pub Agrees : {M : Type 0} → Bytes → (M → Bool) → (M → Addr → Bool) → Live → M → Type 0
Agrees iface redirects drops l m =
    (l.setup.iface ≡ iface)
    × (l.captures ≡ redirects m)
    × ((b : Addr) → elem b l.blocked ≡ drops m b)

-- The session after a command, by its outcome.
captured-fields :
    (l : Live) (on : Bool) (out : Option Bytes)
    → ((captured l on out).captures ≡ (if succeeds out then on else l.captures))
      × ((captured l on out).blocked ≡ l.blocked)
      × ((captured l on out).setup ≡ l.setup)
captured-fields l true none = (refl, refl, refl)
captured-fields l false none = (refl, refl, refl)
captured-fields l true (some out) = (refl, refl, refl)
captured-fields l false (some out) = by_state (is_degraded l.state)
  where
    result : Bool → Live
    result b =
        if b
        then record l { captures = false; state = state_running; warned = false }
        else record l { captures = false }

    by_state :
        (b : Bool)
        → ((result b).captures ≡ false)
          × ((result b).blocked ≡ l.blocked)
          × ((result b).setup ≡ l.setup)
    by_state true = (refl, refl, refl)
    by_state false = (refl, refl, refl)

marked-blocked :
    (l : Live) (a : Addr) (on : Bool) (out : Option Bytes) (b : Addr)
    → elem b (marked l a on out).blocked
      ≡ (if succeeds out && (a == b) then on else elem b l.blocked)
unfolding elem
marked-blocked l a on none b = refl
marked-blocked l a true (some out) b = ground (arith, elem-delete_all a b l.blocked)
marked-blocked l a false (some out) b = ground (arith, elem-delete_all a b l.blocked)

marked-fields :
    (l : Live) (a : Addr) (on : Bool) (out : Option Bytes)
    → ((marked l a on out).captures ≡ l.captures) × ((marked l a on out).setup ≡ l.setup)
marked-fields l a on none = (refl, refl)
marked-fields l a on (some out) = (refl, refl)

module _ {M : Type 0} (run : M → Command → M × Option Bytes) (iface : Bytes) {redirects : M → Bool}
    {drops : M → Addr → Bool} (law : IsFirewall run iface redirects drops)
    (file : JournalFile) where
  abbrev Known : Live × Result LinuxError Unit → M → Type 0
  Known result m = Agrees iface redirects drops result.0 m

  capture-Known :
      (l : Live) (on : Bool) (m : M)
      → Agrees iface redirects drops l m
      → Settles Known file (switch_capture run l on (fresh m file))
  unfolding switch_capture
  capture-Known l on m (here, same, blocked) = by_script (capture l.setup.iface on) refl
    where
      by_script :
          (r : Result (List RuleError) Bytes)
          → capture l.setup.iface on ≡ r
          → Settles Known file (capture_with run l on r (fresh m file))
      by_script (err es) k = (m, (refl, (here, same, blocked)))
      by_script (ok text) k =
          let c = nft_script text in
          let k' = subst (λ x. capture x on ≡ ok text) here k in
          Settles-bind (Attempted run (run m c)) Known file file
            (attempt (execute run c) (fresh m file))
            (λ out. return (captured l on out, replied out)) (execute-Settles run c m file)
            (λ out u (e, answer).
              let (f, g, h) = captured-fields l on out in
              (
                u,
                (
                  refl,
                  (
                    ap (λ x. x.iface) h ∙ here,
                    f
                        ∙ subst (λ m'. (if succeeds out then on else l.captures) ≡ redirects m')
                            (sym e) (rw answer (rw same (sym (law.switches m on text k')))),
                    λ b.
                        ap (elem b) g
                        ∙ blocked b
                        ∙ subst (λ m'. drops m b ≡ drops m' b) (sym e)
                            (sym (law.switch_keeps m on text b k')),
                  ),
                ),
              ))

  block-Known :
      (l : Live) (a : Addr) (on : Bool) (m : M)
      → Agrees iface redirects drops l m
      → Settles Known file (switch_block run l a on (fresh m file))
  unfolding switch_block
  block-Known l a on m (here, same, blocked) = by_script (block a on) refl
    where
      by_script :
          (r : Result (List RuleError) Bytes)
          → block a on ≡ r
          → Settles Known file (block_with run l a on r (fresh m file))
      by_script (err es) k = (m, (refl, (here, same, blocked)))
      by_script (ok text) k =
          let c = nft_script text in
          Settles-bind (Attempted run (run m c)) Known file file
            (attempt (execute run c) (fresh m file))
            (λ out. return (marked l a on out, replied out)) (execute-Settles run c m file)
            (λ out u (e, answer).
              let (f, h) = marked-fields l a on out in
              (
                u,
                (
                  refl,
                  (
                    ap (λ x. x.iface) h ∙ here,
                    f
                        ∙ same
                        ∙ subst (λ m'. redirects m ≡ redirects m') (sym e)
                            (sym (law.mark_keeps m a on text k)),
                    λ b.
                        marked-blocked l a on out b
                        ∙ subst
                            (λ m'.
                              (if succeeds out && (a == b) then on else elem b l.blocked)
                              ≡ drops m' b)
                            (sym e) (rw answer (rw (blocked b) (sym (law.marks m a on text b k)))),
                  ),
                ),
              ))

  -- Over every sequence of SetDNSCapture and Block, of which any may fail, what the session reports of
  -- the capture is what the firewall does, and the addresses that it keeps as blocked are those that the
  -- firewall blocks, if this is so at the beginning. The process is not killed.
  pub live_run-Agrees :
      (cs : List LiveCall) (l : Live) (m : M)
      → Agrees iface redirects drops l m
      → Settles (Agrees iface redirects drops) file (live_run run cs l (fresh m file))
  unfolding live_run live_step
  live_run-Agrees [] l m h = (m, (refl, h))
  live_run-Agrees (c ∷ cs) l m h =
      Settles-bind Known (Agrees iface redirects drops) file file (live_step run l c (fresh m file))
        (λ result. live_run run cs (result.0)) (step-Known c)
        (λ result u k. live_run-Agrees cs (result.0) u k)
    where
      step-Known : (c : LiveCall) → Settles Known file (live_step run l c (fresh m file))
      step-Known (captures_dns on) = capture-Known l on m h
      step-Known (blocks_addr a on) = block-Known l a on m h
