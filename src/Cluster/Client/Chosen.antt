-- ===== src/Cluster/Client/Chosen.antt =====
-- The choice of a builder in cluster/client.rs.
use octobuild.Prelude.{
  ℕ, zero, suc, ◌%◌, ◌<◌, Bool, true, false, List, [], ◌∷◌, Option, none, some, Result, ok, ◌≡◌,
  refl, ap, ◌⊎◌, inl, inr, arith, Bool-cases, length, get_elem?,
}
use octobuild.Io.Stream.{IoError}
use octobuild.Cluster.{BuilderInfo}
use octobuild.Cluster.Client.{filtered, or_panic, choose, get_random_builder}

abbrev pub IsBuilderOf : BuilderInfo → List BuilderInfo → Type 0
IsBuilderOf b [] = ⊥
IsBuilderOf b (x ∷ xs) = (b ≡ x) ⊎ IsBuilderOf b xs

abbrev pub NonePasses : (BuilderInfo → Bool) → List BuilderInfo → Type 0
NonePasses test [] = Unit
NonePasses test (b ∷ bs) = (test b ≡ false) × NonePasses test bs

get_elem?-IsBuilderOf :
    (bs : List BuilderInfo) (i : ℕ)
    → i < length bs
    → (b : BuilderInfo) × (get_elem? bs i ≡ some b) × IsBuilderOf b bs
get_elem?-IsBuilderOf [] i h = absurd (omega arith)
get_elem?-IsBuilderOf (b ∷ bs) zero h = (b, refl, inl refl)
get_elem?-IsBuilderOf (b ∷ bs) (suc i) h =
    let (c, e, m) = get_elem?-IsBuilderOf bs i (omega arith) in (c, e, inr m)

filtered-NonePasses :
    (test : BuilderInfo → Bool) (bs : List BuilderInfo) → filtered test bs ≡ [] → NonePasses test bs
filtered-NonePasses test [] e = tt
filtered-NonePasses test (b ∷ bs) e = elim (Bool-cases (test b)) [
  | inl passes ↦ cc (rw passes at e)
  | inr fails ↦ (fails, filtered-NonePasses test bs (rw fails at e))
]

filtered-IsBuilderOf :
    (test : BuilderInfo → Bool) (bs : List BuilderInfo) (b : BuilderInfo)
    → IsBuilderOf b (filtered test bs)
    → IsBuilderOf b bs × (test b ≡ true)
filtered-IsBuilderOf test [] b m = absurd m
filtered-IsBuilderOf test (x ∷ xs) b m = ground (arith, filtered-IsBuilderOf test xs b)

-- The results of the choice.
abbrev pub IsChoice :
    (BuilderInfo → Bool) → List BuilderInfo → Result IoError (Option BuilderInfo) → Type 0
IsChoice test bs r =
    (NonePasses test bs × (r ≡ ok none))
    ⊎ ((b : BuilderInfo) × IsBuilderOf b bs × (test b ≡ true) × (r ≡ ok (some b)))

choose-IsChoice :
    (random : ℕ) (found : List BuilderInfo) (test : BuilderInfo → Bool) (bs : List BuilderInfo)
    → filtered test bs ≡ found
    → IsChoice test bs (choose random found)
choose-IsChoice random [] test bs e = inl (filtered-NonePasses test bs e, refl)
choose-IsChoice random (x ∷ xs) test bs e =
    let (b, at, m) = get_elem?-IsBuilderOf (x ∷ xs) (random % length (x ∷ xs)) (omega arith) in
    let (of_bs, passes) = filtered-IsBuilderOf test bs b (rw e m) in
    inr (b, of_bs, passes, ap or_panic at)

-- Whatever number `rand` gives, `get_random_builder` indexes within the vector: it returns none
-- exactly if no builder passes the test, and else one of the builders, which passes it.
pub get_random_builder-IsChoice :
    (random : ℕ) (bs : List BuilderInfo) (test : BuilderInfo → Bool)
    → IsChoice test bs (get_random_builder random bs test)
unfolding get_random_builder
get_random_builder-IsChoice random bs test = choose-IsChoice random (filtered test bs) test bs refl
