-- ===== src/Common/Elems.antt =====
-- Membership, deletion and distinctness as Boolean tests, and the keys of a dictionary.
use Prim.Native.Nat.{ℕ, zero, suc, ◌+◌, ◌≤◌, ◌<◌}
use mathlib.Core.Path.{◌≡◌, refl}
use mathlib.Core.Bool.{Bool, true, false, not, ◌&&◌, ◌||◌}
use mathlib.Core.Option.{Option, none, some}
use mathlib.Core.List.{List, [], ◌∷◌}
use native.Mathlib.Omega.{arith}
use dns_desktop.Common.Tests.{Eq, ◌==◌, if◌then◌else◌}
use dns_desktop.Common.Lists.{length, take, drop}
use dns_desktop.Common.Dict.{Dict, lookup, insert, remove}

module _ {ℓ} {A : Type ℓ} ⦃e : Eq A⦄ where
  unfoldable pub elem : A → List A → Bool
  elem x [] = false
  elem x (y ∷ ys) = y == x || elem x ys

  -- `slices.DeleteFunc` with a test for equality.
  unfoldable pub delete_all : A → List A → List A
  delete_all x [] = []
  delete_all x (y ∷ ys) = let rest = delete_all x ys in if y == x then rest else y ∷ rest

  unfoldable pub distinct : List A → Bool
  unfolding elem
  distinct [] = true
  distinct (x ∷ xs) = not (elem x xs) && distinct xs

  pub elem-delete_all :
      (x y : A) (xs : List A) → elem y (delete_all x xs) ≡ (not (x == y) && elem y xs)
  unfolding elem delete_all
  elem-delete_all x y [] = ground arith
  elem-delete_all x y (z ∷ zs) =
      ground (arith, elem-delete_all x y zs, e.equals_iff z x, e.equals_iff z y, e.equals_iff x y)

  pub distinct-delete_all :
      (x : A) (xs : List A) → distinct xs ≡ true → distinct (delete_all x xs) ≡ true
  unfolding distinct delete_all
  distinct-delete_all x [] h = refl
  distinct-delete_all x (y ∷ ys) h =
      ground (arith, distinct-delete_all x ys, elem-delete_all x y ys)

  -- What moves to the front is there once.
  pub distinct-cons_delete_all :
      (x : A) (xs : List A) → distinct xs ≡ true → distinct (x ∷ delete_all x xs) ≡ true
  unfolding distinct
  distinct-cons_delete_all x xs h =
      ground (arith, distinct-delete_all x xs, elem-delete_all x x xs, e.equals_iff x x)

  pub length-delete_all-le : (x : A) (xs : List A) → length (delete_all x xs) ≤ length xs
  unfolding delete_all
  length-delete_all-le x [] = omega arith
  length-delete_all-le x (y ∷ ys) = ground (arith, length-delete_all-le x ys)

  pub elem-take-le : (x : A) (n : ℕ) (xs : List A) → elem x (take n xs) ≡ true → elem x xs ≡ true
  unfolding elem
  elem-take-le x zero xs h = cc
  elem-take-le x (suc n) [] h = h
  elem-take-le x (suc n) (y ∷ ys) h = ground (arith, elem-take-le x n ys)

  pub elem-drop-le : (x : A) (n : ℕ) (xs : List A) → elem x (drop n xs) ≡ true → elem x xs ≡ true
  unfolding elem
  elem-drop-le x zero xs h = h
  elem-drop-le x (suc n) [] h = h
  elem-drop-le x (suc n) (y ∷ ys) h = ground (arith, elem-drop-le x n ys)

  -- The first items of a list without repetition are those that are not among the others.
  pub elem-take :
      (x : A) (n : ℕ) (xs : List A)
      → distinct xs ≡ true
      → elem x (take n xs) ≡ (elem x xs && not (elem x (drop n xs)))
  unfolding elem distinct
  elem-take x zero xs h = ground arith
  elem-take x (suc n) [] h = refl
  elem-take x (suc n) (y ∷ ys) h =
      ground (arith, elem-take x n ys, e.equals_iff y x, elem-drop-le x n ys)

  pub distinct-take : (n : ℕ) (xs : List A) → distinct xs ≡ true → distinct (take n xs) ≡ true
  unfolding distinct
  distinct-take zero xs h = refl
  distinct-take (suc n) [] h = refl
  distinct-take (suc n) (y ∷ ys) h = ground (arith, distinct-take n ys, elem-take-le y n ys)

module _ {ℓ} {K V : Type ℓ} where
  abbrev pub keys : Dict K V → List K
  keys [] = []
  keys ((k, v) ∷ m) = k ∷ keys m

module _ {ℓ} {K V : Type ℓ} ⦃e : Eq K⦄ where
  pub lookup-missing : (k : K) (m : Dict K V) → elem k (keys m) ≡ false → lookup k m ≡ none
  unfolding lookup elem
  lookup-missing k [] h = refl
  lookup-missing k ((j, w) ∷ m) h = ground (arith, lookup-missing k m)

  pub elem-keys_insert :
      (k j : K) (v : V) (m : Dict K V) → elem k (keys (insert j v m)) ≡ (j == k || elem k (keys m))
  unfolding elem insert
  elem-keys_insert k j v [] = refl
  elem-keys_insert k j v ((i, w) ∷ m) = ground (arith, elem-keys_insert k j v m, e.equals_iff i j)

  pub distinct-keys_insert :
      (j : K) (v : V) (m : Dict K V)
      → distinct (keys m) ≡ true
      → distinct (keys (insert j v m)) ≡ true
  unfolding distinct insert elem
  distinct-keys_insert j v [] h = refl
  distinct-keys_insert j v ((i, w) ∷ m) h = ground (
    arith,
    distinct-keys_insert j v m,
    elem-keys_insert i j v m,
    e.equals_iff i j,
    e.equals_iff j i,
  )

  pub elem-keys_remove-le :
      (k j : K) (m : Dict K V) → elem k (keys (remove j m)) ≡ true → elem k (keys m) ≡ true
  unfolding elem remove
  elem-keys_remove-le k j [] h = h
  elem-keys_remove-le k j ((i, w) ∷ m) h = ground (arith, elem-keys_remove-le k j m)

  pub distinct-keys_remove :
      (j : K) (m : Dict K V) → distinct (keys m) ≡ true → distinct (keys (remove j m)) ≡ true
  unfolding distinct remove
  distinct-keys_remove j [] h = refl
  distinct-keys_remove j ((i, w) ∷ m) h =
      ground (arith, distinct-keys_remove j m, elem-keys_remove-le i j m)

  pub length-insert_new : (k : K) (v : V) (m : Dict K V) → length (insert k v m) ≤ length m + 1
  unfolding insert
  length-insert_new k v [] = omega arith
  length-insert_new k v ((j, w) ∷ m) = ground (arith, length-insert_new k v m)

  -- A write at a key that is there adds nothing.
  pub length-insert_old :
      (k : K) (v old : V) (m : Dict K V) → lookup k m ≡ some old → length (insert k v m) ≡ length m
  unfolding insert lookup
  length-insert_old k v old [] h = cc
  length-insert_old k v old ((j, w) ∷ m) h = ground (arith, length-insert_old k v old m)

  pub length-remove-le : (k : K) (m : Dict K V) → length (remove k m) ≤ length m
  unfolding remove
  length-remove-le k [] = omega arith
  length-remove-le k ((j, w) ∷ m) = ground (arith, length-remove-le k m)

  pub length-remove-lt :
      (k : K) (old : V) (m : Dict K V) → lookup k m ≡ some old → length (remove k m) < length m
  unfolding remove lookup
  length-remove-lt k old [] h = cc
  length-remove-lt k old ((j, w) ∷ m) h =
      ground (arith, length-remove-lt k old m, length-remove-le k m)

module _ {ℓ} {V : Type ℓ} ⦃f : Eq V⦄ where
  abbrev pub points : Option V → V → Bool
  points none v = false
  points (some w) v = w == v

-- The pairs whose value is not `v`: a loop that deletes from a map the keys that hold `v`.
module _ {ℓ} {K V : Type ℓ} ⦃e : Eq K⦄ ⦃f : Eq V⦄ where
  unfoldable pub remove_value : V → Dict K V → Dict K V
  remove_value v [] = []
  remove_value v ((k, w) ∷ m) =
      let rest = remove_value v m in if w == v then rest else (k, w) ∷ rest

  pub elem-keys_remove_value-le :
      (k : K) (v : V) (m : Dict K V)
      → elem k (keys (remove_value v m)) ≡ true
      → elem k (keys m) ≡ true
  unfolding elem remove_value
  elem-keys_remove_value-le k v [] h = h
  elem-keys_remove_value-le k v ((i, w) ∷ m) h = ground (arith, elem-keys_remove_value-le k v m)

  pub distinct-keys_remove_value :
      (v : V) (m : Dict K V) → distinct (keys m) ≡ true → distinct (keys (remove_value v m)) ≡ true
  unfolding distinct remove_value
  distinct-keys_remove_value v [] h = refl
  distinct-keys_remove_value v ((i, w) ∷ m) h =
      ground (arith, distinct-keys_remove_value v m, elem-keys_remove_value-le i v m)

  pub lookup-remove_value :
      (k : K) (v : V) (m : Dict K V)
      → distinct (keys m) ≡ true
      → lookup k (remove_value v m) ≡ (if points (lookup k m) v then none else lookup k m)
  unfolding distinct remove_value lookup
  lookup-remove_value k v [] h = refl
  lookup-remove_value k v ((i, w) ∷ m) h =
      ground (arith, lookup-remove_value k v m, lookup-missing k m, e.equals_iff i k)
