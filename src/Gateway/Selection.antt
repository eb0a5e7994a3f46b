-- ===== src/Gateway/Selection.antt =====
-- The interfaces that SelectUplink and SelectAPInterface of internal/gateway/gateway.go choose.
use dns_desktop.Common.{
  ◌≡◌, refl, sym, ap, ◌∙◌, subst, ◌⊎◌, inl, inr, Bool, true, false, not, ◌&&◌, Option, none, some,
  List, [], ◌∷◌, Bytes, null, Result, ok, err, ◌==◌, bytes_eq_instance, if◌then◌else◌,
}
use dns_desktop.Gateway.{
  Interface, first_where, select_uplink, select_ap_interface, SelectError, or_error, usable,
  hosts_ap, interface_down, no_access_point, no_default_route, carries_route, is_loopback, ap_error,
}

abbrev pub Listed : Interface → List Interface → Type 0
Listed x [] = ⊥
Listed x (y ∷ ys) = (x ≡ y) ⊎ Listed x ys

same_of_some : {x y : Interface} → some x ≡ some y → x ≡ y
same_of_some h = cc

same_interface : {x y : Interface} {r : Result SelectError Interface} → r ≡ ok x → r ≡ ok y → x ≡ y
same_interface h k = cc

and_true : (a b : Bool) → (a && b) ≡ true → (a ≡ true) × (b ≡ true)
and_true true true h = (refl, refl)
and_true true false h = cc
and_true false b h = cc

first_where-Listed :
    (p : Interface → Bool) (xs : List Interface) (x : Interface)
    → first_where p xs ≡ some x
    → Listed x xs × (p x ≡ true)
unfolding first_where
first_where-Listed p [] x e = absurd (clash e)
  where
    clash : none ≡ some x → ⊥
    clash h = cc
first_where-Listed p (y ∷ ys) x e = by_test (p y) (λ h. first_where-Listed p ys x h) refl e
  where
    by_test :
        (b : Bool)
        → (first_where p ys ≡ some x → Listed x ys × (p x ≡ true))
        → p y ≡ b
        → (if b then some y else first_where p ys) ≡ some x
        → Listed x (y ∷ ys) × (p x ≡ true)
    by_test true later t h =
        let same = same_of_some h in (inl (sym same), subst (λ z. p z ≡ true) same t)
    by_test false later t h = let (here, good) = later h in (inr here, good)

or_error-some :
    (o : Option Interface) (e : SelectError) (x : Interface) → or_error o e ≡ ok x → o ≡ some x
or_error-some none e x h = cc
or_error-some (some y) e x h = cc

usable-some :
    (o : Option Interface) (x : Interface) → usable o ≡ ok x → (o ≡ some x) × (x.up ≡ true)
usable-some none x h = cc
usable-some (some y) x h = by_up y.up refl h
  where
    by_up :
        (b : Bool)
        → y.up ≡ b
        → (if b then ok y else err interface_down) ≡ ok x
        → (some y ≡ some x) × (x.up ≡ true)
    by_up true u h =
        let same = same_interface refl h in (ap some same, ap (λ z. z.up) (sym same) ∙ u)
    by_up false u h = cc

hosts_ap-some :
    (o : Option Interface) (x : Interface)
    → hosts_ap o ≡ ok x
    → (o ≡ some x) × (x.supports_ap ≡ true)
hosts_ap-some none x h = cc
hosts_ap-some (some y) x h = by_support y.supports_ap refl h
  where
    by_support :
        (b : Bool)
        → y.supports_ap ≡ b
        → (if b then ok y else err no_access_point) ≡ ok x
        → (some y ≡ some x) × (x.supports_ap ≡ true)
    by_support true u h =
        let same = same_interface refl h in (ap some same, ap (λ z. z.supports_ap) (sym same) ∙ u)
    by_support false u h = cc

is_false : (b : Bool) → not b ≡ true → b ≡ false
is_false true h = cc
is_false false h = refl

-- The uplink is there and up. It is the one that was asked for by name, and if none was, one that carries
-- the default route and is no loopback.
abbrev pub IsUplink : List Interface → Bytes → Interface → Type 0
IsUplink ifaces preferred x =
    Listed x ifaces
    × (x.up ≡ true)
    × ((null preferred ≡ false) → (x.name == preferred) ≡ true)
    × ((null preferred ≡ true) → (x.has_default_route ≡ true) × (is_loopback x.kind ≡ false))

pub select_uplink-IsUplink :
    (ifaces : List Interface) (preferred : Bytes) (x : Interface)
    → select_uplink ifaces preferred ≡ ok x
    → IsUplink ifaces preferred x
unfolding select_uplink
select_uplink-IsUplink ifaces preferred x e = by_name (null preferred) refl e
  where
    by_name :
        (b : Bool)
        → null preferred ≡ b
        → (if not b
            then usable (first_where (λ y. y.name == preferred) ifaces)
            else or_error (first_where carries_route ifaces) no_default_route)
          ≡ ok x
        → IsUplink ifaces preferred x
    by_name false named h =
        let (found, up) = usable-some (first_where (λ y. y.name == preferred) ifaces) x h in
        let (here, good) = first_where-Listed (λ y. y.name == preferred) ifaces x found in
        (here, up, (λ asked. good), λ unnamed. cc)
    by_name true named h =
        let found = or_error-some (first_where carries_route ifaces) no_default_route x h in
        let (here, good) = first_where-Listed carries_route ifaces x found in
        let (both, kind) = and_true (x.has_default_route && x.up) (not (is_loopback x.kind)) good in
        let (route, up) = and_true x.has_default_route x.up both in
        (here, up, (λ asked. cc), λ unnamed. (route, is_false (is_loopback x.kind) kind))

-- The access point is there and can be one. It is the one that was asked for by name, and if none was,
-- another than the uplink.
abbrev pub IsHost : List Interface → Bytes → Bytes → Interface → Type 0
IsHost ifaces preferred uplink x =
    Listed x ifaces
    × (x.supports_ap ≡ true)
    × ((null preferred ≡ false) → (x.name == preferred) ≡ true)
    × ((null preferred ≡ true) → (x.name == uplink) ≡ false)

pub select_ap_interface-IsHost :
    (ifaces : List Interface) (preferred uplink : Bytes) (x : Interface)
    → select_ap_interface ifaces preferred uplink ≡ ok x
    → IsHost ifaces preferred uplink x
unfolding select_ap_interface
select_ap_interface-IsHost ifaces preferred uplink x e = by_name (null preferred) refl e
  where
    hosts : Interface → Bool
    hosts y = y.supports_ap && not (y.name == uplink)

    by_name :
        (b : Bool)
        → null preferred ≡ b
        → (if not b
            then hosts_ap (first_where (λ y. y.name == preferred) ifaces)
            else or_error (first_where hosts ifaces) (ap_error ifaces uplink))
          ≡ ok x
        → IsHost ifaces preferred uplink x
    by_name false named h =
        let (found, able) = hosts_ap-some (first_where (λ y. y.name == preferred) ifaces) x h in
        let (here, good) = first_where-Listed (λ y. y.name == preferred) ifaces x found in
        (here, able, (λ asked. good), λ unnamed. cc)
    by_name true named h =
        let found = or_error-some (first_where hosts ifaces) (ap_error ifaces uplink) x h in
        let (here, good) = first_where-Listed hosts ifaces x found in
        let (able, other) = and_true x.supports_ap (not (x.name == uplink)) good in
        (here, able, (λ asked. cc), λ unnamed. is_false (x.name == uplink) other)
