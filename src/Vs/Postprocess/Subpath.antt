-- ===== src/Vs/Postprocess/Subpath.antt =====
-- `is_subpath` of vs/postprocess.rs against its meaning.
use octobuild.Prelude.{
  ℕ, zero, suc, ◌+◌, ◌-◌, ◌<◌, ◌≤◌, true, false, not, [], ◌∷◌, ◌++◌, ◌==◌, ◌&&◌, Bytes, ◌≡◌, refl,
  sym, ap, ◌∙◌, ◌⊎◌, inl, inr, ◌↔◌, arith, length, length-append, take, drop, take-append-drop,
  drop-append, get_or, Bool-cases, ltb, ==_iff,
}
use octobuild.Compiler.{eq_ignore_ascii_case}
use octobuild.Vs.Postprocess.Directives.{is_subpath}

-- `child` is `parent` from the beginning, or from behind a slash, up to the case of letters.
abbrev pub IsEndOf : Bytes → Bytes → Type 0
IsEndOf child parent =
    (front : Bytes) × (back : Bytes) × (parent ≡ front ++ back)
    × (eq_ignore_ascii_case child back ≡ true)
    × ((front ≡ []) ⊎ ((f : Bytes) × (front ≡ f ++ b'/' ∷ [])))

eq_ignore_ascii_case-length : (a b : Bytes) → eq_ignore_ascii_case a b ≡ true → length a ≡ length b
eq_ignore_ascii_case-length [] [] e = omega arith
eq_ignore_ascii_case-length [] (y ∷ b) e = cc
eq_ignore_ascii_case-length (x ∷ a) [] e = cc
eq_ignore_ascii_case-length (x ∷ a) (y ∷ b) e = ground (arith, eq_ignore_ascii_case-length a b)

take-last : (k : ℕ) (xs : Bytes) → k < length xs → take (suc k) xs ≡ take k xs ++ get_or xs k 0 ∷ []
take-last k [] h = absurd (omega arith)
take-last zero (x ∷ xs) h = refl
take-last (suc k) (x ∷ xs) h = ap (◌∷◌ x) (take-last k xs (omega arith))

get_or-append : (f more : Bytes) (c : ℕ) → get_or ((f ++ c ∷ []) ++ more) (length f) 0 ≡ c
get_or-append [] more c = refl
get_or-append (x ∷ f) more c = get_or-append f more c

module _ (parent child : Bytes) where
  abbrev cut : ℕ
  cut = length parent - length child

  equal_cut : length parent ≡ length child → cut ≡ 0
  equal_cut e = omega (arith, e)

  longer_cut :
      length child ≤ length parent → (length parent == length child) ≡ false → cut ≡ suc (cut - 1)
  longer_cut h e = ground arith

  front_ends :
      length child ≤ length parent
      → (not (length parent == length child) && not (get_or parent (cut - 1) 0 == b'/')) ≡ false
      → (take cut parent ≡ []) ⊎ ((f : Bytes) × (take cut parent ≡ f ++ b'/' ∷ []))
  front_ends h e = elim (Bool-cases (length parent == length child)) [
    | inl same ↦
        inl (ap (λ k. take k parent) (equal_cut ((==_iff (length parent) (length child)).0 same)))
    | inr longer ↦
        let slash : get_or parent (cut - 1) 0 ≡ b'/' = ground arith in
        let some_ : cut ≡ suc (cut - 1) = longer_cut h longer in
        inr (
          take (cut - 1) parent,
          ap (λ k. take k parent) some_
              ∙ take-last (cut - 1) parent (omega (arith, some_, h))
              ∙ ap (λ x. take (cut - 1) parent ++ x ∷ []) slash,
        )
  ]

  forward : is_subpath parent child ≡ true → IsEndOf child parent
  unfolding is_subpath
  forward e = elim (Bool-cases (ltb (length parent) (length child))) [
    | inl short ↦ cc (rw (short, is_subpath) at e)
    | inr long ↦
        elim (Bool-cases
          (not (length parent == length child) && not (get_or parent (cut - 1) 0 == b'/'))) [
            | inl within ↦ cc (rw (long, within, is_subpath) at e)
            | inr ends ↦ (
              take cut parent,
              drop cut parent,
              sym (take-append-drop cut parent),
              rw (long, ends, is_subpath) at e,
              front_ends (ground arith) ends,
            )
          ]
  ]

  outside_of :
      (front back : Bytes)
      → parent ≡ front ++ back
      → length parent ≡ length front + length back
      → length child ≡ length back
      → (front ≡ []) ⊎ ((f : Bytes) × (front ≡ f ++ b'/' ∷ []))
      → (not (length parent == length child) && not (get_or parent (cut - 1) 0 == b'/')) ≡ false
  outside_of front back p whole same (inl none_) =
      let equal : length parent ≡ length child = omega (arith, whole, same, ap length none_) in
      ground arith
  outside_of front back p whole same (inr (f, e)) =
      let at : cut - 1 ≡ length f =
        omega (arith, whole, same, ap length e, length-append f (b'/' ∷ [])) in
      let slash : get_or parent (cut - 1) 0 ≡ b'/' =
        ap (λ k. get_or parent k 0) at
        ∙ ap (λ x. get_or x (length f) 0) (p ∙ ap (λ x. x ++ back) e)
        ∙ get_or-append f back b'/' in
      ground (arith, slash)

  backward : IsEndOf child parent → is_subpath parent child ≡ true
  unfolding is_subpath
  backward (front, back, p, q, ends) =
      let whole : length parent ≡ length front + length back =
        ap length p ∙ length-append front back in
      let same = eq_ignore_ascii_case-length child back q in
      let at : cut ≡ length front = omega (arith, whole, same) in
      let ends_ : drop cut parent ≡ back =
        ap (λ k. drop k parent) at
        ∙ ap (drop (length front)) p
        ∙ drop-append (length front) front back refl in
      let fits : ltb (length parent) (length child) ≡ false = ground (arith, whole, same) in
      let outside : (not (length parent == length child) && not (get_or parent (cut - 1) 0 == b'/'))
          ≡ false =
        outside_of front back p whole same ends in
      rw (fits, outside, is_subpath) (rw ends_ q)

  -- `is_subpath parent child` holds exactly if `child`, up to the case of letters, is the end of
  -- `parent`, and stands there at the beginning or behind a slash.
  pub is_subpath_lem : (is_subpath parent child ≡ true) ↔ IsEndOf child parent
  is_subpath_lem = (forward, backward)
