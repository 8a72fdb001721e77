-- ===== src/Prelude/Dict.antt =====
-- Go maps with string keys as association lists: lookup, assignment and deletion. The order of the
-- list is the order in which a `range` over the map meets the entries, which Go leaves open.
use Prim.Native.Nat.{suc, ◌≤◌}
use Prim.Native.String.{String}
use mathlib.Core.Path.{◌≡◌, refl}
use mathlib.Core.Logic.{inl, inr}
use mathlib.Core.Option.{Option, none, some}
use mathlib.Core.List.{List, [], ◌∷◌}
use native.Mathlib.Omega.{arith}
use text.Mathlib.Text.{◌==◌}
use text.Mathlib.TextEquality.{eq_iff}
use text.Mathlib.TextPositions.{eq_refl}
use rolesanywhere_credential.Prelude.Tests.{if◌then◌else◌, Bool-cases}
use rolesanywhere_credential.Prelude.Lists.{length, All}

module _ {ℓ} {V : Type ℓ} where
  unfoldable pub erase : String → List (String × V) → List (String × V)
  erase key [] = []
  erase key (entry ∷ m) = if entry.0 == key then erase key m else entry ∷ erase key m

  unfoldable pub lookup : String → List (String × V) → Option V
  lookup key [] = none
  lookup key (entry ∷ m) = if entry.0 == key then some entry.1 else lookup key m

  unfoldable pub insert : String → V → List (String × V) → List (String × V)
  insert key value [] = (key, value) ∷ []
  insert key value (entry ∷ m) =
      if entry.0 == key then (key, value) ∷ m else entry ∷ insert key value m

  -- Every key stands once, as in a map.
  abbrev pub HasDistinctKeys : List (String × V) → Type ℓ
  HasDistinctKeys [] = Unit
  HasDistinctKeys ((k, v) ∷ m) = (lookup k m ≡ none) × HasDistinctKeys m

  pub lookup-erase :
      (k j : String) (m : List (String × V))
      → lookup j (erase k m) ≡ (if k == j then none else lookup j m)
  unfolding lookup erase
  lookup-erase k j [] = ground arith
  lookup-erase k j (e ∷ m) =
      ground (arith, eq_iff k j, eq_iff e.0 k, eq_iff e.0 j, lookup-erase k j m)

  pub lookup-insert :
      (key other : String) (value : V) (m : List (String × V))
      → lookup other (insert key value m) ≡ (if key == other then some value else lookup other m)
  unfolding insert lookup
  lookup-insert key other value [] = refl
  lookup-insert key other value (e ∷ m) =
      ground
        (arith, eq_iff e.0 key, eq_iff e.0 other, eq_iff key other, lookup-insert key other value m)

  pub lookup-insert_self :
      (key : String) (value : V) (m : List (String × V))
      → lookup key (insert key value m) ≡ some value
  lookup-insert_self key value m = simp (eq_refl, lookup-insert)

  pub insert-HasDistinctKeys :
      (k : String) (v : V) (m : List (String × V))
      → HasDistinctKeys m
      → HasDistinctKeys (insert k v m)
  unfolding insert lookup
  insert-HasDistinctKeys k v [] d = (refl, tt)
  insert-HasDistinctKeys k v ((i, w) ∷ m) d =
      ground
        (arith, eq_iff i k, eq_iff k i, insert-HasDistinctKeys k v m d.1, lookup-insert k i v m)

  pub erase-HasDistinctKeys :
      (k : String) (m : List (String × V)) → HasDistinctKeys m → HasDistinctKeys (erase k m)
  unfolding erase
  erase-HasDistinctKeys k [] d = tt
  erase-HasDistinctKeys k ((i, w) ∷ m) d =
      ground (arith, erase-HasDistinctKeys k m d.1, lookup-erase k i m)

  pub length-insert_absent :
      (k : String) (v : V) (m : List (String × V))
      → lookup k m ≡ none
      → length (insert k v m) ≡ suc (length m)
  unfolding insert lookup
  length-insert_absent k v [] h = refl
  length-insert_absent k v ((i, w) ∷ m) h = ground (arith, length-insert_absent k v m)

  pub length-insert_present :
      (k : String) (v w : V) (m : List (String × V))
      → lookup k m ≡ some w
      → length (insert k v m) ≡ length m
  unfolding insert lookup
  length-insert_present k v w [] h = cc
  length-insert_present k v w ((i, x) ∷ m) h = ground (arith, length-insert_present k v w m)

  pub length-insert-le :
      (k : String) (v : V) (m : List (String × V)) → length (insert k v m) ≤ suc (length m)
  unfolding insert
  length-insert-le k v [] = omega arith
  length-insert-le k v ((i, w) ∷ m) = ground (arith, length-insert-le k v m)

  pub erase_absent : (k : String) (m : List (String × V)) → lookup k m ≡ none → erase k m ≡ m
  unfolding erase lookup
  erase_absent k [] h = refl
  erase_absent k ((i, w) ∷ m) h = ground (arith, erase_absent k m)

  pub length-erase_present :
      (k : String) (v : V) (m : List (String × V))
      → HasDistinctKeys m
      → lookup k m ≡ some v
      → suc (length (erase k m)) ≡ length m
  unfolding erase lookup
  length-erase_present k v [] d h = cc
  length-erase_present k v ((i, w) ∷ m) d h =
      ground (arith, eq_iff i k, length-erase_present k v m d.1, erase_absent k m)

  pub length-erase-le : (k : String) (m : List (String × V)) → length (erase k m) ≤ length m
  unfolding erase
  length-erase-le k [] = omega arith
  length-erase-le k ((i, w) ∷ m) = ground (arith, length-erase-le k m)

module _ {ℓ κ} {V : Type ℓ} (P : String × V → Type κ) where
  pub insert-All :
      (k : String) (v : V) (m : List (String × V)) → P (k, v) → All P m → All P (insert k v m)
  unfolding insert
  insert-All k v [] p h = (p, tt)
  insert-All k v ((i, w) ∷ m) p (q, h) = elim (Bool-cases (i == k)) [
    | inl e ↦ rw e (p, h)
    | inr e ↦ rw e (q, insert-All k v m p h)
  ]

  pub erase-All : (k : String) (m : List (String × V)) → All P m → All P (erase k m)
  unfolding erase
  erase-All k [] h = tt
  erase-All k ((i, w) ∷ m) (q, h) = elim (Bool-cases (i == k)) [
    | inl e ↦ rw e (erase-All k m h)
    | inr e ↦ rw e (q, erase-All k m h)
  ]
