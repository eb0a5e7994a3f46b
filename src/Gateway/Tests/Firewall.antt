-- ===== src/Gateway/Tests/Firewall.antt =====
-- Runs of a session of internal/gateway/linux_session.go on a firewall.
use dns_desktop.Common.{
  ℕ, List, not, ◌||◌, ◌&&◌, ◌∙◌, sym, ℕ_eq, inl, inr, eq_true, eq_of_true, ne_of_false, Bool-cases,
  append_assoc, ◌≡◌, refl, subst, Bool, true, false, Option, none, some, [], ◌∷◌, ◌++◌, Bytes, ◌==◌,
  bytes_eq_instance, if◌then◌else◌, Result, ok,
}
use dns_desktop.Common.Elems.{elem, delete_all, elem-delete_all}
use dns_desktop.Net.{Addr, is4, addr_eq_instance, no_addr, v4, v6}
use dns_desktop.Text.{runes}
use dns_desktop.Gateway.Linux.Live.{Live, running}
use dns_desktop.Gateway.Linux.Agree.{
  LiveCall, captures_dns, blocks_addr, live_run, IsFirewall, Agrees, live_run-Agrees,
}
use dns_desktop.Gateway.Nftables.{addr_text, capture, block, codes}
use dns_desktop.Gateway.Printed.{addr_text-injective}
use dns_desktop.Gateway.Linux.{absent, Command, nft_script}
use dns_desktop.Gateway.Linux.Settled.{fresh, Settles}
use dns_desktop.Gateway.Tests.{setup}

-- A firewall that captures the DNS of wlan0 or does not, and keeps what a script has put in its set of
-- blocked addresses: the text from the address on.
pub record Fire : Type 0 where
  pub on : Bool
  pub dropped : List Bytes

abbrev on_script : Bytes
on_script = codes "add element inet gatewaydns capture { \"wlan0\" }" ++ (10 ∷ [])

abbrev off_script : Bytes
off_script = codes "delete element inet gatewaydns capture { \"wlan0\" }" ++ (10 ∷ [])

abbrev add_prefix : Bytes
add_prefix = codes "add element inet gatewaydns blocked { "

abbrev delete_prefix : Bytes
delete_prefix = codes "delete element inet gatewaydns blocked { "

-- What stands behind a prefix.
abbrev behind : Bytes → Bytes → Option Bytes
behind [] t = some t
behind (p ∷ ps) [] = none
behind (p ∷ ps) (c ∷ cs) = let rest = behind ps cs in if p == c then rest else none

abbrev fire_delete : Fire → Option Bytes → Fire × Option Bytes
fire_delete m none = (m, none)
fire_delete m (some x) = (record m { dropped = delete_all x m.dropped }, some [])

abbrev fire_block : Fire → Bytes → Option Bytes → Fire × Option Bytes
fire_block m t none = fire_delete m (behind delete_prefix t)
fire_block m t (some x) = (record m { dropped = x ∷ m.dropped }, some [])

abbrev fire_script : Fire → Bytes → Fire × Option Bytes
fire_script m t =
    if t == on_script
    then (record m { on = true }, some [])
    else if t == off_script
    then (record m { on = false }, some [])
    else fire_block m t (behind add_prefix t)

abbrev fire_run : Fire → Command → Fire × Option Bytes
fire_run m (nft_script t) = fire_script m t
fire_run m _ = (m, none)

-- What a script to block an address has behind its prefix.
abbrev shown : Addr → Bytes
shown a = addr_text a ++ codes " }" ++ (10 ∷ [])

abbrev fire_drops : Fire → Addr → Bool
fire_drops m a = is4 a && elem (shown a) m.dropped

same_text : {E : Type 0} {x : Result E Bytes} {r t : Bytes} → x ≡ ok r → x ≡ ok t → r ≡ t
same_text h k = cc

blocked_by : Fire → Addr → Bool → Fire
blocked_by m a true = record m { dropped = shown a ∷ m.dropped }
blocked_by m a false = record m { dropped = delete_all (shown a) m.dropped }

fire_blocks :
    (a : Addr) (on : Bool) (m : Fire) (text : Bytes)
    → block a on ≡ ok text
    → (is4 a ≡ true) × (fire_script m text ≡ (blocked_by m a on, some []))
unfolding block blocked_by
fire_blocks (v4 a) true m text h = (
  refl,
  subst (λ t. fire_script m t ≡ (blocked_by m (v4 a) true, some [])) (same_text refl h) refl,
)
fire_blocks (v4 a) false m text h = (
  refl,
  subst (λ t. fire_script m t ≡ (blocked_by m (v4 a) false, some [])) (same_text refl h) refl,
)
fire_blocks no_addr on m text h = cc
fire_blocks (v6 a) on m text h = cc

fire_captures :
    (on : Bool) (m : Fire) (text : Bytes)
    → capture (codes "wlan0") on ≡ ok text
    → fire_script m text ≡ (record m { on = on }, some [])
unfolding capture runes
fire_captures true m text h =
    subst (λ t. fire_script m t ≡ (record m { on = true }, some [])) (same_text refl h) refl
fire_captures false m text h =
    subst (λ t. fire_script m t ≡ (record m { on = false }, some [])) (same_text refl h) refl

-- Texts are the same where addresses are.
shown_lem : (n k : ℕ) → (shown (v4 n) == shown (v4 k)) ≡ (v4 n == v4 k)
shown_lem n k = elim (Bool-cases (n == k)) [
  | inl e ↦ rw (eq_of_true n k e) (rw (eq_true (shown (v4 k))) (sym (eq_true (v4 k))))
  | inr e ↦ elim (Bool-cases (shown (v4 n) == shown (v4 k))) [
    | inl same ↦ absurd (
        ne_of_false n k e (
          addr_text-injective n k (codes "}" ++ (10 ∷ [])) (
            sym (append_assoc (addr_text (v4 n)) (codes " }") (10 ∷ []))
            ∙ eq_of_true (shown (v4 n)) (shown (v4 k)) same
            ∙ append_assoc (addr_text (v4 k)) (codes " }") (10 ∷ []))))
    | inr other ↦ other ∙ sym e
  ]
]

-- What the set of a firewall is after a script.
blocked_lem :
    (a b : Addr) (on : Bool) (m : Fire)
    → is4 a ≡ true
    → fire_drops (blocked_by m a on) b ≡ (if a == b then on else fire_drops m b)
unfolding blocked_by elem
blocked_lem no_addr b on m h = cc
blocked_lem (v6 a) b on m h = cc
blocked_lem (v4 n) no_addr on m h = refl
blocked_lem (v4 n) (v6 k) on m h = refl
blocked_lem (v4 n) (v4 k) true m h =
    rw (shown_lem n k) (by_test (v4 n == v4 k) (elem (shown (v4 k)) m.dropped))
  where
    by_test : (c x : Bool) → (c || x) ≡ (if c then true else x)
    by_test true x = refl
    by_test false x = refl
blocked_lem (v4 n) (v4 k) false m h =
    elem-delete_all (shown (v4 n)) (shown (v4 k)) m.dropped
    ∙ rw (shown_lem n k) (by_test (v4 n == v4 k) (elem (shown (v4 k)) m.dropped))
  where
    by_test : (c x : Bool) → (not c && x) ≡ (if c then false else x)
    by_test true x = refl
    by_test false x = refl

blocked-on : (a : Addr) (on : Bool) (m : Fire) → (blocked_by m a on).on ≡ m.on
unfolding blocked_by
blocked-on a true m = refl
blocked-on a false m = refl

fire_law : IsFirewall fire_run (codes "wlan0") (λ m. m.on) fire_drops
fire_law = record {
  switches = λ m on text h. rw (fire_captures on m text h) refl;
  switch_keeps = λ m on text b h. rw (fire_captures on m text h) refl;
  marks = λ m a on text b h.
      let (four, made) = fire_blocks a on m text h in rw made (blocked_lem a b on m four);
  mark_keeps =
      λ m a on text h. let (four, made) = fire_blocks a on m text h in rw made (blocked-on a on m);
}

abbrev session : Live
session = running setup

abbrev quiet : Fire
quiet = record { on = false; dropped = [] }

abbrev phone : Addr
phone = v4 168427530

abbrev tablet : Addr
tablet = v4 168427531

-- Both devices are blocked, and then the tablet is let through.
abbrev evening : List LiveCall
evening =
    captures_dns true
    ∷ blocks_addr phone true
    ∷ blocks_addr tablet true
    ∷ blocks_addr tablet false
    ∷ []

live_run-Agrees_example :
    Settles
      (Agrees (codes "wlan0") (λ m. m.on) fire_drops)
      absent
      (live_run fire_run evening session (fresh quiet absent))
unfolding elem
live_run-Agrees_example =
    live_run-Agrees fire_run (codes "wlan0") fire_law absent evening session quiet
      (refl, refl, nothing_dropped)
  where
    nothing_dropped : (b : Addr) → false ≡ fire_drops quiet b
    nothing_dropped no_addr = refl
    nothing_dropped (v4 k) = refl
    nothing_dropped (v6 k) = refl

-- The firewall does block.
blocked_at_night :
    (fire_drops (live_run fire_run evening session (fresh quiet absent)).0.machine phone ≡ true)
    × (fire_drops (live_run fire_run evening session (fresh quiet absent)).0.machine tablet ≡ false)
unfolding live_run elem runes delete_all
blocked_at_night = (refl, refl)
