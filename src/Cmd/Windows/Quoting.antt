-- ===== src/Cmd/Windows/Quoting.antt =====
-- Every list of arguments can be written on one line, and `parse` reads it back.
use octobuild.Prelude.{
  ℕ, zero, suc, ◌*◌, true, List, [], ◌∷◌, ◌++◌, ◌==◌, if◌then◌else◌, Text, ◌≡◌, refl, sym, ◌∙◌, ap,
  append-nil, append_assoc, arith, Bool-cases, inl, inr, replicate, ==_iff,
}
use octobuild.Cmd.Words.{command_line}
use octobuild.Cmd.Windows.{State, initial, add_slashes, step, run, finish, parse}

abbrev pub backslashes : ℕ → Text
backslashes n = replicate n b'\\'

pub add_slashes-replicate : (line : Text) (n : ℕ) → add_slashes line n ≡ line ++ backslashes n
unfolding add_slashes
add_slashes-replicate line zero = sym (append-nil line)
add_slashes-replicate line (suc n) =
    add_slashes-replicate (line ++ b'\\' ∷ []) n ∙ append_assoc line (b'\\' ∷ []) (backslashes n)

pub backslashes_shift :
    (n : ℕ) (rest : Text) → backslashes n ++ (b'\\' ∷ rest) ≡ b'\\' ∷ (backslashes n ++ rest)
backslashes_shift zero rest = refl
backslashes_shift (suc n) rest = ap (◌∷◌ b'\\') (backslashes_shift n rest)

-- One character between double quotes: a quote and a backslash get a backslash before them.
abbrev pub quoted : ℕ → Text
quoted c =
    if c == b'"' then b'\\' ∷ b'"' ∷ [] else if c == b'\\' then b'\\' ∷ b'\\' ∷ [] else c ∷ []

abbrev pub quoted_all : Text → Text
quoted_all [] = []
quoted_all (c ∷ cs) = quoted c ++ quoted_all cs

abbrev pub quote_arg : Text → Text
quote_arg a = b'"' ∷ (quoted_all a ++ (b'"' ∷ []))

-- Between quotes, with `2 * k` backslashes pending, which stand for `k`.
abbrev pub inside : List Text → Text → ℕ → State
inside args arg k = record { args = args; arg = arg; slash = 2 * k; quote = true; has_data = true }

-- One character is read: a backslash pends, any other puts the pending ones out.
pub run-quoted :
    (args : List Text) (arg rest : Text) (k c : ℕ)
    → run (inside args arg k) (quoted c ++ rest) ≡ (
        if c == b'\\'
        then run (inside args arg (suc k)) rest
        else run (inside args ((arg ++ backslashes k) ++ c ∷ []) 0) rest)
unfolding run step
run-quoted args arg rest k c = ground (arith, add_slashes-replicate arg k)

abbrev between : List Text → State
between args = record initial { args = args }

pending-cons :
    (arg cs : Text) (k : ℕ)
    → (arg ++ backslashes (suc k)) ++ cs ≡ (arg ++ backslashes k) ++ (b'\\' ∷ cs)
pending-cons arg cs k = simp (append_assoc, backslashes_shift)

flushed-cons :
    (arg cs : Text) (k c : ℕ)
    → (((arg ++ backslashes k) ++ c ∷ []) ++ backslashes 0) ++ cs
      ≡ (arg ++ backslashes k) ++ (c ∷ cs)
flushed-cons arg cs k c = simp (append_assoc, append-nil)

run_closing :
    (args : List Text) (arg rest : Text) (k : ℕ)
    → run (inside args arg k) (b'"' ∷ b' ' ∷ rest)
      ≡ run (between (args ++ (arg ++ backslashes k) ∷ [])) rest
unfolding run step
run_closing args arg rest k = ground (
  arith,
  add_slashes-replicate arg k,
  add_slashes-replicate (arg ++ backslashes k) 0,
  append-nil (arg ++ backslashes k),
)

-- The end of the line behind the quote.
pub run_last :
    (args : List Text) (arg : Text) (k : ℕ)
    → finish (run (inside args arg k) (b'"' ∷ [])) ≡ args ++ (arg ++ backslashes k) ∷ []
unfolding finish run step
run_last args arg k = ground (
  arith,
  add_slashes-replicate arg k,
  add_slashes-replicate (arg ++ backslashes k) 0,
  append-nil (arg ++ backslashes k),
)

-- What stands behind an argument: its quote, and the end of the line or a space and more.
abbrev pub Behind : Text → (List Text → List Text) → Type 0
Behind rest result =
    (args : List Text) (arg : Text) (k : ℕ)
    → finish (run (inside args arg k) (b'"' ∷ rest)) ≡ result (args ++ (arg ++ backslashes k) ∷ [])

module _ (rest : Text) (result : List Text → List Text) (behind : Behind rest result) where
  pub run-quoted_all :
      (a : Text) (args : List Text) (arg : Text) (k : ℕ)
      → finish (run (inside args arg k) (quoted_all a ++ (b'"' ∷ rest)))
        ≡ result (args ++ ((arg ++ backslashes k) ++ a) ∷ [])
  run-quoted_all [] args arg k = rw append-nil (behind args arg k)
  run-quoted_all (c ∷ cs) args arg k =
      rw (append_assoc (quoted c) (quoted_all cs) _, run-quoted args arg _ k c)
        (elim (Bool-cases (c == b'\\')) [
          | inl e ↦ rw e (
              run-quoted_all cs args arg (suc k)
              ∙ ap (λ w. result (args ++ w ∷ []))
                  (pending-cons arg cs k
                    ∙ ap (λ x. (arg ++ backslashes k) ++ (x ∷ cs)) (sym ((==_iff c b'\\').0 e))))
          | inr e ↦ rw e (
              run-quoted_all cs args ((arg ++ backslashes k) ++ c ∷ []) 0
              ∙ ap (λ w. result (args ++ w ∷ [])) (flushed-cons arg cs k c))
        ])

  finish-quote_arg :
      (args : List Text) (a : Text)
      → finish (run (between args) (quote_arg a ++ rest)) ≡ result (args ++ a ∷ [])
  finish-quote_arg args a = ap finish opened ∙ run-quoted_all a args [] 0
    where
      opened :
          run (between args) (quote_arg a ++ rest)
          ≡ run (inside args [] 0) (quoted_all a ++ (b'"' ∷ rest))
      opened = rw append_assoc (unfold run step add_slashes in refl)

run-command_line :
    (args argv : List Text)
    → finish (run (between args) (command_line quote_arg argv)) ≡ args ++ argv
run-command_line args [] = rw append-nil (unfold run finish in refl)
run-command_line args (a ∷ []) =
    ap (λ t. finish (run (between args) t)) (sym (append-nil (quote_arg a)))
    ∙ finish-quote_arg [] (λ l. l) run_last args a
run-command_line args (a ∷ b ∷ argv) =
    finish-quote_arg (b' ' ∷ command_line quote_arg (b ∷ argv))
      (λ l. finish (run (between l) (command_line quote_arg (b ∷ argv))))
      (λ args' arg k. ap finish (run_closing args' arg _ k)) args a
    ∙ run-command_line (args ++ a ∷ []) (b ∷ argv)
    ∙ rw append_assoc

-- Arguments that are put in double quotes, with a backslash before each quote and each backslash
-- in them, and joined by spaces are parsed back to the same list, whatever characters they hold,
-- the empty argument included.
pub parse-command_line_windows : (argv : List Text) → parse (command_line quote_arg argv) ≡ argv
unfolding parse
parse-command_line_windows argv = run-command_line [] argv
