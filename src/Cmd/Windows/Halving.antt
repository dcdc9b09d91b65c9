-- ===== src/Cmd/Windows/Halving.antt =====
-- What becomes of backslashes between quotes that stand before an ordinary character. The page that
-- cmd/windows.rs refers to keeps them all; the code halves an even number of them.
use native.Mathlib.Nat.{zero-add}
use octobuild.Prelude.{
  ℕ, zero, suc, ◌+◌, ◌*◌, ◌/◌, ◌%◌, Bool, true, false, not, ◌&&◌, ◌||◌, List, [], ◌∷◌, ◌++◌, ◌==◌,
  if◌then◌else◌, Text, ◌≡◌, refl, ◌∙◌, ap, append-nil, append_assoc, arith,
}
use octobuild.Cmd.Windows.{State, is_blank, step, run, finish, parse}
use octobuild.Cmd.Windows.Quoting.{
  backslashes, add_slashes-replicate, quoted, quoted_all, run-quoted, run_last, run-quoted_all,
}

-- Backslashes inside quotes that stand before an ordinary character.
run-backslashes :
    (n : ℕ) (args : List Text) (arg rest : Text) (m : ℕ)
    → run
        (record { args = args; arg = arg; slash = m; quote = true; has_data = true })
        (backslashes n ++ rest)
      ≡ run (record { args = args; arg = arg; slash = m + n; quote = true; has_data = true }) rest
unfolding run step
run-backslashes zero args arg rest m = ground arith
run-backslashes (suc n) args arg rest m = ground (arith, run-backslashes n args arg rest (m + 1))

abbrev pub is_ordinary : ℕ → Bool
is_ordinary c = not (is_blank c || c == b'\\' || c == b'"')

-- The state between quotes, with `m` backslashes pending.
abbrev within : Text → ℕ → State
within arg m = record { args = []; arg = arg; slash = m; quote = true; has_data = true }

abbrev pub has_no_backslash : Text → Bool
has_no_backslash [] = true
has_no_backslash (c ∷ cs) = not (c == b'\\') && has_no_backslash cs

-- Text with no backslash leaves none pending.
run_plain :
    (a arg rest : Text)
    → has_no_backslash a ≡ true
    → run (within arg 0) (quoted_all a ++ rest) ≡ run (within (arg ++ a) 0) rest
run_plain [] arg rest h = rw append-nil refl
run_plain (c ∷ cs) arg rest h =
    let plain : (c == b'\\') ≡ false = ground arith in
    rw (append_assoc (quoted c) (quoted_all cs) rest) (
      run-quoted [] arg (quoted_all cs ++ rest) 0 c
      ∙ rw (plain, append-nil)
          (run_plain cs (arg ++ c ∷ []) rest (ground arith) ∙ rw append_assoc refl))

run_ordinary :
    (m c : ℕ) (arg rest : Text)
    → is_ordinary c ≡ true
    → run (within arg m) (c ∷ rest)
      ≡ run (within ((arg ++ backslashes (if (m % 2) == 0 then m / 2 else m)) ++ c ∷ []) 0) rest
unfolding run step
run_ordinary m c arg rest h =
    ground (arith, add_slashes-replicate arg (m / 2), add_slashes-replicate arg m)

-- An argument with `m` backslashes between a text with none and an ordinary character.
abbrev pub around : Text → ℕ → ℕ → Text → Text
around a m c z = b'"' ∷ (quoted_all a ++ (backslashes m ++ (c ∷ (quoted_all z ++ b'"' ∷ []))))

parse-around :
    (a z : Text) (m c : ℕ)
    → has_no_backslash a ≡ true
    → is_ordinary c ≡ true
    → parse (around a m c z)
      ≡ (a ++ (backslashes (if (m % 2) == 0 then m / 2 else m) ++ (c ∷ z))) ∷ []
parse-around a z m c ha h =
    opened
    ∙ ap finish (
        run_plain a [] _ ha
        ∙ run-backslashes m [] a _ 0
        ∙ ap (λ k. run (within a k) (c ∷ (quoted_all z ++ b'"' ∷ []))) (zero-add m)
        ∙ run_ordinary m c a _ h)
    ∙ run-quoted_all [] (λ l. l) run_last z [] _ 0
    ∙ ap (λ t. t ∷ []) (simp (append_assoc, append-nil))
  where
    opened :
        parse (around a m c z)
        ≡ finish (
            run
              (within [] 0)
              (quoted_all a ++ (backslashes m ++ (c ∷ (quoted_all z ++ b'"' ∷ [])))))
    opened = unfold parse run step in refl

even_half : (n : ℕ) → (if ((2 * n) % 2) == 0 then (2 * n) / 2 else 2 * n) ≡ n
even_half n = ground arith

odd_kept : (n : ℕ) → (if ((2 * n + 1) % 2) == 0 then (2 * n + 1) / 2 else 2 * n + 1) ≡ 2 * n + 1
odd_kept n = ground arith

-- Between double quotes, behind any text `a` with no backslash and before an ordinary character `c`
-- (no blank, no backslash, no quote), an even number of backslashes is halved and an odd number is
-- kept; the text before them and the text `z` behind `c` are read as they were quoted.
pub parse-backslashes :
    (a z : Text) (n c : ℕ)
    → has_no_backslash a ≡ true
    → is_ordinary c ≡ true
    → (parse (around a (2 * n) c z) ≡ (a ++ (backslashes n ++ (c ∷ z))) ∷ [])
      × (parse (around a (2 * n + 1) c z) ≡ (a ++ (backslashes (2 * n + 1) ++ (c ∷ z))) ∷ [])
parse-backslashes a z n c ha h = (
  parse-around a z (2 * n) c ha h ∙ ap (λ k. (a ++ (backslashes k ++ (c ∷ z))) ∷ []) (even_half n),
  parse-around a z (2 * n + 1) c ha h
      ∙ ap (λ k. (a ++ (backslashes k ++ (c ∷ z))) ∷ []) (odd_kept n),
)
