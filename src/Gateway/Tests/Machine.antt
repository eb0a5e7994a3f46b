-- ===== src/Gateway/Tests/Machine.antt =====
-- A machine for runs of internal/gateway, with the four things that are observed.
use dns_desktop.Common.{
  ◌≡◌, refl, ap, subst, Bool, true, false, not, ◌&&◌, ◌||◌, Option, none, some, [], ◌∷◌, ◌++◌,
  Bytes, ◌==◌, bytes_eq_instance, if◌then◌else◌, eq_true,
}
use dns_desktop.Text.{runes, encode_runes, trim_space}
use dns_desktop.Gateway.Nftables.{codes, destroy, delete_fallback}
use dns_desktop.Gateway.Linux.{
  Command, sysctl_read, sysctl_write, nft_list, nft_script, addr_replace, addr_delete,
  start_hostapd, stop_hostapd, succeeds,
}
use dns_desktop.Gateway.Linux.Laws.{
  IsMachine, writes_forwarding, writes_table, writes_address, writes_ap,
}

pub record Toy : Type 0 where
  pub on : Bool
  pub table : Bool
  pub addrs : Bytes → Bytes → Bool
  pub ap_up : Bool

abbrev pub flag : Bool → Bytes
flag true = codes "1"
flag false = codes "0"

abbrev pub toy_forwards : Toy → Bytes
toy_forwards m = flag m.on

abbrev pub toy_run : Toy → Command → Toy × Option Bytes
toy_run m sysctl_read = (m, some (flag m.on ++ (10 ∷ [])))
toy_run m (sysctl_write v) = (record m { on = v == codes "1" }, some [])
toy_run m nft_list = (m, if m.table then some [] else none)
toy_run m (nft_script t) =
    (record m { table = not (t == destroy || t == delete_fallback) }, some [])
toy_run m (addr_replace a i) =
    (record m { addrs = λ x y. (x == a && y == i) || m.addrs x y }, some [])
toy_run m (addr_delete a i) =
    (record m { addrs = λ x y. not (x == a && y == i) && m.addrs x y }, some [])
toy_run m start_hostapd = (record m { ap_up = true }, some [])
toy_run m stop_hostapd = (record m { ap_up = false }, some [])

clash : true ≡ false → ⊥
clash e = subst (elim [ true ↦ Unit | false ↦ ⊥ ]) e tt

toy_keeps_forwarding :
    (m : Toy) (c : Command)
    → writes_forwarding c ≡ false
    → toy_forwards (toy_run m c).0 ≡ toy_forwards m
toy_keeps_forwarding m sysctl_read e = refl
toy_keeps_forwarding m (sysctl_write v) e = absurd (clash e)
toy_keeps_forwarding m nft_list e = refl
toy_keeps_forwarding m (nft_script t) e = refl
toy_keeps_forwarding m (addr_replace a i) e = refl
toy_keeps_forwarding m (addr_delete a i) e = refl
toy_keeps_forwarding m start_hostapd e = refl
toy_keeps_forwarding m stop_hostapd e = refl

toy_keeps_table : (m : Toy) (c : Command) → writes_table c ≡ false → (toy_run m c).0.table ≡ m.table
toy_keeps_table m sysctl_read e = refl
toy_keeps_table m (sysctl_write v) e = refl
toy_keeps_table m nft_list e = refl
toy_keeps_table m (nft_script t) e = absurd (clash e)
toy_keeps_table m (addr_replace a i) e = refl
toy_keeps_table m (addr_delete a i) e = refl
toy_keeps_table m start_hostapd e = refl
toy_keeps_table m stop_hostapd e = refl

toy_keeps_address :
    (m : Toy) (c : Command) (x y : Bytes)
    → writes_address c ≡ false
    → (toy_run m c).0.addrs x y ≡ m.addrs x y
toy_keeps_address m sysctl_read x y e = refl
toy_keeps_address m (sysctl_write v) x y e = refl
toy_keeps_address m nft_list x y e = refl
toy_keeps_address m (nft_script t) x y e = refl
toy_keeps_address m (addr_replace a i) x y e = absurd (clash e)
toy_keeps_address m (addr_delete a i) x y e = absurd (clash e)
toy_keeps_address m start_hostapd x y e = refl
toy_keeps_address m stop_hostapd x y e = refl

toy_keeps_ap : (m : Toy) (c : Command) → writes_ap c ≡ false → (toy_run m c).0.ap_up ≡ m.ap_up
toy_keeps_ap m sysctl_read e = refl
toy_keeps_ap m (sysctl_write v) e = refl
toy_keeps_ap m nft_list e = refl
toy_keeps_ap m (nft_script t) e = refl
toy_keeps_ap m (addr_replace a i) e = refl
toy_keeps_ap m (addr_delete a i) e = refl
toy_keeps_ap m start_hostapd e = absurd (clash e)
toy_keeps_ap m stop_hostapd e = absurd (clash e)

pub toy_law : IsMachine toy_run toy_forwards (λ m. m.table) (λ m. m.addrs) (λ m. m.ap_up)
unfolding runes encode_runes trim_space
toy_law = record {
  keeps_forwarding = toy_keeps_forwarding;
  keeps_table = toy_keeps_table;
  keeps_address = toy_keeps_address;
  keeps_ap = toy_keeps_ap;
  reads = λ m out e.
      subst (λ x. encode_runes (trim_space (runes x)) ≡ flag m.on) (held m.on out e) (shown m.on);
  writes = λ earlier m. written earlier.on;
  lists = λ m. listed m.table;
  destroys = λ m e. refl;
  deletes_table = λ m. refl;
  deletes = λ m a i. rw (eq_true a) (rw (eq_true i) refl);
}
  where
    held :
        (b : Bool) (out : Bytes) → some (flag b ++ (10 ∷ [])) ≡ some out → flag b ++ (10 ∷ []) ≡ out
    held b out e = ap (elim [ none ↦ [] | some x ↦ x ]) e

    shown : (b : Bool) → encode_runes (trim_space (runes (flag b ++ (10 ∷ [])))) ≡ flag b
    shown true = refl
    shown false = refl

    written : (b : Bool) → flag (flag b == codes "1") ≡ flag b
    written true = refl
    written false = refl

    listed : (b : Bool) → succeeds (if b then some [] else none) ≡ b
    listed true = refl
    listed false = refl
