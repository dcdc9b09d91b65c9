-- ===== src/Prelude/Members.antt =====
-- Membership, distinctness and removal in lists of numbers, and lists of flags.
use Prim.Native.Nat.{ℕ, zero, suc, ◌≤◌, ◌<◌}
use mathlib.Core.Path.{◌≡◌, refl, ap, sym, subst}
use mathlib.Core.Logic.{◌↔◌, ◌⊎◌, inl, inr, ⊎_elim, ◌≢◌}
use mathlib.Core.Bool.{Bool, true, false}
use mathlib.Core.List.{List, [], ◌∷◌, ◌++◌}
use native.Mathlib.Omega.{arith}
use octobuild.Prelude.Tests.{◌==◌, if◌then◌else◌, Bool-cases, ==_iff}
use octobuild.Prelude.Lists.{length, get_or, set, replicate}

abbrev pub In : ℕ → List ℕ → Type 0
In a [] = ⊥
In a (x ∷ xs) = (a ≡ x) ⊎ In a xs

abbrev pub AreDistinct : List ℕ → Type 0
AreDistinct [] = Unit
AreDistinct (x ∷ xs) = (¬ In x xs) × AreDistinct xs

pub In-append : (a : ℕ) (xs ys : List ℕ) → In a (xs ++ ys) ↔ (In a xs ⊎ In a ys)
In-append a [] ys = (inr, ⊎_elim (λ e. absurd e) (λ m. m))
In-append a (x ∷ xs) ys = ground (arith, In-append a xs ys)

pub AreDistinct-append :
    (xs ys : List ℕ)
    → AreDistinct xs
    → AreDistinct ys
    → ((a : ℕ) → In a xs → ¬ In a ys)
    → AreDistinct (xs ++ ys)
AreDistinct-append [] ys dx dy apart = dy
AreDistinct-append (x ∷ xs) ys dx dy apart = (
  λ m. ⊎_elim dx.0 (apart x (inl refl)) ((In-append x xs ys).0 m),
  AreDistinct-append xs ys dx.1 dy (λ a m. apart a (inr m)),
)

-- The first occurrence of `a` taken out.
abbrev pub remove : ℕ → List ℕ → List ℕ
remove a [] = []
remove a (x ∷ xs) = if a == x then xs else x ∷ remove a xs

pub In-of_remove : (a b : ℕ) (xs : List ℕ) → In b (remove a xs) → In b xs
In-of_remove a b [] m = m
In-of_remove a b (x ∷ xs) m = ground (arith, In-of_remove a b xs)

pub In-remove_ne : (a b : ℕ) (xs : List ℕ) → b ≢ a → In b xs → In b (remove a xs)
In-remove_ne a b [] ne m = m
In-remove_ne a b (x ∷ xs) ne m = ground (arith, In-remove_ne a b xs)

pub AreDistinct-remove :
    (a : ℕ) (xs : List ℕ) → AreDistinct xs → AreDistinct (remove a xs) × (¬ In a (remove a xs))
AreDistinct-remove a [] d = (tt, λ e. e)
AreDistinct-remove a (x ∷ xs) d =
    let (d', gone) = AreDistinct-remove a xs d.1 in
    elim (Bool-cases (a == x)) [
      | inl e ↦ rw e (d.1, subst (λ y. ¬ In y xs) (sym ((==_iff a x).0 e)) d.0)
      | inr e ↦
          rw e ((λ m. d.0 (In-of_remove a x xs m), d'), ⊎_elim (λ y. cc ((==_iff a x).1 y)) gone)
    ]

-- How many flags are set.
abbrev pub trues : List Bool → ℕ
trues [] = 0
trues (true ∷ bs) = suc (trues bs)
trues (false ∷ bs) = trues bs

abbrev pub flag : List Bool → ℕ → Bool
flag bs i = get_or bs i false

pub flag-set :
    (bs : List Bool) (i j : ℕ)
    → i < length bs
    → flag (set bs i true) j ≡ (if j == i then true else flag bs j)
flag-set [] i j h = absurd (omega arith)
flag-set (b ∷ bs) zero zero h = refl
flag-set (b ∷ bs) zero (suc j) h = ground arith
flag-set (b ∷ bs) (suc i) zero h = ground arith
flag-set (b ∷ bs) (suc i) (suc j) h = ground (arith, flag-set bs i j)

pub trues-set :
    (bs : List Bool) (i : ℕ)
    → i < length bs
    → flag bs i ≡ false
    → trues (set bs i true) ≡ suc (trues bs)
trues-set [] i h e = absurd (omega arith)
trues-set (b ∷ bs) zero h e = rw e
trues-set (true ∷ bs) (suc i) h e = ap suc (trues-set bs i (omega arith) e)
trues-set (false ∷ bs) (suc i) h e = trues-set bs i (omega arith) e

pub flag-replicate : (n i : ℕ) → flag (replicate n false) i ≡ false
flag-replicate zero i = refl
flag-replicate (suc n) zero = refl
flag-replicate (suc n) (suc i) = flag-replicate n i

pub trues-replicate : (n : ℕ) → trues (replicate n false) ≡ 0
trues-replicate zero = refl
trues-replicate (suc n) = trues-replicate n

-- With every flag set they are all counted, and with all counted every flag is set.
pub trues_all :
    (bs : List Bool) → ((i : ℕ) → i < length bs → flag bs i ≡ true) → trues bs ≡ length bs
trues_all [] h = refl
trues_all (true ∷ bs) h = ap suc (trues_all bs (λ i l. h (suc i) (omega arith)))
trues_all (false ∷ bs) h = cc (h 0 (omega arith))

pub trues-le : (bs : List Bool) → trues bs ≤ length bs
trues-le [] = omega arith
trues-le (true ∷ bs) = omega (arith, trues-le bs)
trues-le (false ∷ bs) = omega (arith, trues-le bs)

pub flag_of_trues :
    (bs : List Bool) → trues bs ≡ length bs → (i : ℕ) → i < length bs → flag bs i ≡ true
flag_of_trues [] e i h = absurd (omega arith)
flag_of_trues (true ∷ bs) e zero h = refl
flag_of_trues (true ∷ bs) e (suc i) h = flag_of_trues bs (omega arith) i (omega arith)
flag_of_trues (false ∷ bs) e i h = absurd (omega (arith, trues-le bs))

-- `flag-set` as it is used: what a new flag tells.
module _ (bs : List Bool) (i : ℕ) (h : i < length bs) where
  pub set-true : (j : ℕ) → flag (set bs i true) j ≡ true → (j ≡ i) ⊎ (flag bs j ≡ true)
  set-true j e = ground (arith, flag-set bs i j)

  pub set-false : (j : ℕ) → flag (set bs i true) j ≡ false → (j ≢ i) × (flag bs j ≡ false)
  set-false j e = ground (arith, flag-set bs i j)

  pub set_other : (j : ℕ) → j ≢ i → flag (set bs i true) j ≡ flag bs j
  set_other j e = ground (arith, flag-set bs i j)

  pub set_self : flag (set bs i true) i ≡ true
  set_self = ground (arith, flag-set bs i i)

  pub set_keeps : (j : ℕ) → flag bs j ≡ true → flag (set bs i true) j ≡ true
  set_keeps j e = ground (arith, flag-set bs i j)
