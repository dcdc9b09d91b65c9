-- ===== src/Vs/Steps/Output.antt =====
-- `prepare_output` of vs/compiler.rs on the output of a compiler that names its input file first.
use octobuild.Prelude.{
  ℕ, Bool, true, false, [], ◌∷◌, ◌++◌, if◌then◌else◌, Bytes, ◌≡◌, refl, ap, ◌∙◌, arith, length,
  drop, get_or, length-append, drop-append, starts_with-append, ltb, lt→ltb,
}
use octobuild.Vs.Steps.{is_eol, skip_eols, prepare_output}

-- Bytes at the end of lines, and a text that begins with none.
abbrev pub AreEols : Bytes → Type 0
AreEols [] = Unit
AreEols (c ∷ cs) = (is_eol c ≡ true) × AreEols cs

abbrev pub BeginsLine : Bytes → Type 0
BeginsLine [] = Unit
BeginsLine (c ∷ cs) = is_eol c ≡ false

skip_eols-append :
    (eols rest : Bytes) → AreEols eols → BeginsLine rest → skip_eols (eols ++ rest) ≡ rest
skip_eols-append [] [] h k = refl
skip_eols-append [] (c ∷ cs) h k = rw k refl
skip_eols-append (e ∷ eols) rest (h, hs) k = rw h (skip_eols-append eols rest hs k)

get_or-append : (line more : Bytes) (c : ℕ) → get_or (line ++ c ∷ more) (length line) 0 ≡ c
get_or-append [] more c = refl
get_or-append (x ∷ line) more c = get_or-append line more c

module _ (replace_all : Bytes → Bytes) (line : Bytes) where
  abbrev cleaned : Bool → Bytes → Bytes
  cleaned succeeded text = if succeeded then replace_all text else text

  -- The name of the input file, on a line of its own at the front of the output, is taken out with all
  -- ends of lines that follow; the rest stays as it is, but for the lines that `replace_all` takes out
  -- of a success.
  pub prepare_output_lem :
      (e : ℕ) (eols rest : Bytes) (succeeded : Bool)
      → AreEols (e ∷ eols)
      → BeginsLine rest
      → prepare_output replace_all line (line ++ e ∷ (eols ++ rest)) succeeded
        ≡ (if succeeded then replace_all rest else rest)
  unfolding prepare_output
  prepare_output_lem e eols rest succeeded (h, hs) begins =
      let buffer = line ++ e ∷ (eols ++ rest) in
      let shorter : ltb (length line) (length buffer) ≡ true =
        lt→ltb (length line) (length buffer)
          (omega (arith, length-append line (e ∷ (eols ++ rest)))) in
      let at_eol : is_eol (get_or buffer (length line) 0) ≡ true =
        ap is_eol (get_or-append line (eols ++ rest) e) ∙ h in
      let dropped : drop (length line) buffer ≡ e ∷ (eols ++ rest) =
        drop-append (length line) line (e ∷ (eols ++ rest)) refl in
      let skipped : skip_eols (drop (length line) buffer) ≡ rest =
        ap skip_eols dropped ∙ skip_eols-append (e ∷ eols) rest (h, hs) begins in
      rw (shorter, starts_with-append line (e ∷ (eols ++ rest)), at_eol, prepare_output)
        (ap (cleaned succeeded) skipped)
