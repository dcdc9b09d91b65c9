-- ===== src/Prelude/Maps.antt =====
-- `HashMap` with texts for keys: its entries, each key once. Their order is that of an iteration.
use mathlib.Core.Path.{◌≡◌, refl, sym, ap, ◌∙◌}
use mathlib.Core.Logic.{inl, inr}
use mathlib.Core.Bool.{true, false}
use native.Mathlib.Omega.{arith}
use octobuild.Prelude.Tests.{if◌then◌else◌, Bool-cases}
use octobuild.Prelude.Strings.{Text, text_eq, text_eq_iff}
use mathlib.Core.List.{List, [], ◌∷◌}
use mathlib.Core.Option.{Option, none, some}

module _ {ℓ} {V : Type ℓ} where
  abbrev pub get : List (Text × V) → Text → Option V
  get [] k = none
  get ((k', v) ∷ m) k = if text_eq k' k then some v else get m k

  abbrev pub remove_key : List (Text × V) → Text → List (Text × V)
  remove_key [] k = []
  remove_key ((k', v) ∷ m) k = if text_eq k' k then remove_key m k else (k', v) ∷ remove_key m k

  abbrev pub insert : List (Text × V) → Text → V → List (Text × V)
  insert m k v = (k, v) ∷ remove_key m k

apart : (a b x : Text) → text_eq a b ≡ false → text_eq a x ≡ true → text_eq b x ≡ false
apart a b x ne e = elim (Bool-cases (text_eq b x)) [
  | inr other ↦ other
  | inl same ↦ cc (ne, (text_eq_iff a b).1 ((text_eq_iff a x).0 e ∙ sym ((text_eq_iff b x).0 same)))
]

module _ {ℓ} {V : Type ℓ} where
  pub get-remove_key :
      (m : List (Text × V)) (k x : Text)
      → get (remove_key m k) x ≡ (if text_eq k x then none else get m x)
  get-remove_key [] k x = ground arith
  get-remove_key ((k', v) ∷ m) k x = elim (Bool-cases (text_eq k' k)) [
    | inl same ↦
        let renamed : text_eq k' x ≡ text_eq k x =
          ap (λ z. text_eq z x) ((text_eq_iff k' k).0 same) in
        ground (arith, get-remove_key m k x, renamed)
    | inr other ↦ ground (arith, get-remove_key m k x, apart k' k x other)
  ]

  pub get-insert :
      (m : List (Text × V)) (k x : Text) (v : V)
      → get (insert m k v) x ≡ (if text_eq k x then some v else get m x)
  get-insert m k x v = ground (arith, get-remove_key m k x)

  -- A map has each key once.
  abbrev pub HasKeysOnce : List (Text × V) → Type ℓ
  HasKeysOnce [] = Unit
  HasKeysOnce ((k, v) ∷ m) = (get m k ≡ none) × HasKeysOnce m

  remove_key-HasKeysOnce :
      (m : List (Text × V)) (k : Text) → HasKeysOnce m → HasKeysOnce (remove_key m k)
  remove_key-HasKeysOnce [] k h = tt
  remove_key-HasKeysOnce ((k', v) ∷ m) k (fresh, h) = elim (Bool-cases (text_eq k' k)) [
    | inl same ↦ rw (same, remove_key) (remove_key-HasKeysOnce m k h)
    | inr other ↦
        rw (other, remove_key) (ground (arith, get-remove_key m k k'), remove_key-HasKeysOnce m k h)
  ]

  pub insert-HasKeysOnce :
      (m : List (Text × V)) (k : Text) (v : V) → HasKeysOnce m → HasKeysOnce (insert m k v)
  insert-HasKeysOnce m k v h =
      let self : text_eq k k ≡ true = (text_eq_iff k k).1 refl in
      (ground (arith, get-remove_key m k k, self), remove_key-HasKeysOnce m k h)
