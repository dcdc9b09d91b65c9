-- ===== src/Io/FileCache/Reading.antt =====
-- What `read_cache` makes of a cache file: the files, and the texts of the compiler.
use mathlib.Core.Path.{ap₂}
use octobuild.Prelude.{
  ℕ, zero, suc, ◌-◌, ◌^◌, ◌<◌, ◌≤◌, min, true, false, [], ◌∷◌, ◌++◌, ◌==◌, Bytes, Result, ok,
  length, take, drop, ◌≡◌, refl, ap, sym, ◌∙◌, arith, inl, inr, List-cases, length-append,
  length-drop, append_assoc, append-nil, ==_iff, take-append, drop-append, some,
}
use octobuild.Compiler.{OutputInfo}
use octobuild.Io.Stream.{IoError, Reader, IsReader, NeverFails}
use octobuild.Io.Binary.{le_bytes, read_exact}
use octobuild.Io.Binary.Reading.{read_exact_lem, read_u64-le_bytes, read_usize-le_bytes}
use octobuild.Io.FileCache.{
  header, footer, read_file_loop, read_cached_file, read_blob, read_output,
}
use octobuild.Io.FileCache.Store.{read_start, read_end}
use octobuild.Io.FileCache.Writing.{packed_file, IsShort}

front :
    (a b x y : Bytes)
    → length a ≤ length b
    → b ++ y ≡ a ++ x
    → (b ≡ a ++ drop (length a) b) × (x ≡ drop (length a) b ++ y)
front [] b x y h e = (refl, sym e)
front (c ∷ a) [] x y h e = absurd (omega arith)
front (c ∷ a) (d ∷ b) x y h e =
    let same : d ≡ c = cc in let (l, r) = front a b x y (omega arith) cc in (ap₂ ◌∷◌ same l, r)

append-empty : (a b : Bytes) → [] ≡ a ++ b → a ≡ []
append-empty [] b e = refl
append-empty (x ∷ a) b e = cc

module _ {S : Type 0} (r : Reader S) (Valid : S → Type 0) (rest : S → Bytes)
    (laws : IsReader r Valid rest) (total : NeverFails r Valid) where
  -- A step that takes `b` off the front and returns `a`.
  abbrev Takes : {A : Type 0} → Result IoError (A × S) → A → Bytes → Type 0
  Takes {A} m a more = (t : S) × (m ≡ ok (a, t)) × (rest t ≡ more) × Valid t

  read_exact-front :
      (s : S) (b more : Bytes)
      → Valid s
      → rest s ≡ b ++ more
      → Takes (read_exact r s (length b)) b more
  read_exact-front s b more v e = elim (read_exact_lem r Valid rest laws total s (length b) v) [
    | inl (t, enough, e', left, v') ↦
        let taken : take (length b) (rest s) ≡ b = rw e (take-append (length b) b more refl) in
        let back : drop (length b) (rest s) ≡ more = rw e (drop-append (length b) b more refl) in
        (t, rw (e', taken), left ∙ back, v')
    | inr (short, e') ↦ absurd (omega (arith, ap length e, length-append b more))
  ]

  read_blob_lem :
      (s : S) (b more : Bytes)
      → Valid s
      → IsShort b
      → rest s ≡ packed_file b ++ more
      → Takes (read_blob r s) b more
  unfolding read_blob
  read_blob_lem s b more v h e =
      let (t, e1, left, v1) =
        read_usize-le_bytes r Valid rest laws total s (length b) (b ++ more) v h
          (e ∙ append_assoc (le_bytes 8 (length b)) b more) in
      let (u, e2, left', v2) = read_exact-front t b more v1 left in (u, rw (e1, e2), left', v2)

  module _ (buf_size : ℕ) (pos : 0 < buf_size) where
    Loop : ℕ → S → Bytes → Bytes → Type 0
    Loop fuel s content more =
        Takes (read_file_loop r buf_size fuel s (length content)) content more

    read_file_loop-zero : (fuel : ℕ) (s : S) → read_file_loop r buf_size fuel s 0 ≡ ok ([], s)
    unfolding read_file_loop
    read_file_loop-zero zero s = refl
    read_file_loop-zero (suc fuel) s = refl

    Loop-next :
        (fuel : ℕ) (s t : S) (content more : Bytes) (c : ℕ) (cs : Bytes)
        → (length content == 0) ≡ false
        → Valid s
        → rest s ≡ content ++ more
        → r.read s (min buf_size (length content)) ≡ ok (c ∷ cs, t)
        → (Valid t
            → rest t ≡ drop (length (c ∷ cs)) content ++ more
            → Loop fuel t (drop (length (c ∷ cs)) content) more)
        → Loop (suc fuel) s content more
    unfolding read_file_loop Loop
    Loop-next fuel s t content more c cs some_left v e q ih =
        let n = min buf_size (length content) in
        let fits : length (c ∷ cs) ≤ length content = omega (arith, laws.fits s n v q) in
        let (splits, left) =
          front (c ∷ cs) content (rest t) more fits (sym e ∙ laws.splits s n v q) in
        let (u, e', left', v') = ih (laws.keeps s n v q) left in
        let e'' : read_file_loop r buf_size fuel t (length content - length (c ∷ cs))
            ≡ ok (drop (length (c ∷ cs)) content, u) =
          ap (read_file_loop r buf_size fuel t) (sym (length-drop (length (c ∷ cs)) content))
          ∙ e' in
        (u, rw (some_left, q, e'', read_file_loop) (ap (λ x. ok (x, u)) (sym splits)), left', v')

    read_file_loop_lem :
        (fuel : ℕ) (s : S) (content more : Bytes)
        → Valid s
        → rest s ≡ content ++ more
        → length content ≤ fuel
        → Loop fuel s content more
    unfolding Loop
    read_file_loop_lem fuel s [] more v e h = (s, read_file_loop-zero fuel s, e, v)
    read_file_loop_lem zero s (x ∷ xs) more v e h = absurd (omega arith)
    read_file_loop_lem (suc fuel) s (x ∷ xs) more v e h =
        let (b, t, q) = total s (min buf_size (length (x ∷ xs))) v in
        let some_left : (length (x ∷ xs) == 0) ≡ false = ground arith in
        elim (List-cases b) [
          | inl z ↦ elim (laws.stops s (min buf_size (length (x ∷ xs))) v (rw z at q)) [
            | inl no_room ↦ absurd (omega arith)
            | inr no_bytes ↦ cc (sym no_bytes ∙ e)
          ]
          | inr (c, cs, z) ↦
              Loop-next fuel s t (x ∷ xs) more c cs some_left v e (rw z at q) (λ v' left.
                read_file_loop_lem fuel t (drop (length (c ∷ cs)) (x ∷ xs)) more v' left
                  (omega (arith, length-drop (length (c ∷ cs)) (x ∷ xs))))
        ]

    pub read_cached_file_lem :
        (s : S) (content more : Bytes)
        → Valid s
        → IsShort content
        → rest s ≡ packed_file content ++ more
        → Takes (read_cached_file r buf_size s) content more
    unfolding read_cached_file Loop
    read_cached_file_lem s content more v h e =
        let (t, e1, left, v1) =
          read_u64-le_bytes r Valid rest laws total s (length content) (content ++ more) v h
            (e ∙ append_assoc (le_bytes 8 (length content)) content more) in
        let (u, e2, left', v2) =
          read_file_loop_lem (length content) t content more v1 left (omega arith) in
        (u, rw (e1, e2), left', v2)

  read_output_lem :
      (s : S) (output : OutputInfo) (more : Bytes)
      → Valid s
      → IsShort output.stdout
      → IsShort output.stderr
      → rest s ≡ packed_file output.stdout ++ (packed_file output.stderr ++ more)
      → Takes (read_output r s) (record output { status = some 0 }) more
  unfolding read_output
  read_output_lem s output more v h h' e =
      let (t, e1, left, v1) =
        read_blob_lem s output.stdout (packed_file output.stderr ++ more) v h e in
      let (u, e2, left', v2) = read_blob_lem t output.stderr more v1 h' left in
      (u, rw (e1, e2), left', v2)

  pub read_end_lem :
      (s : S) (output : OutputInfo)
      → Valid s
      → IsShort output.stdout
      → IsShort output.stderr
      → rest s ≡ packed_file output.stdout ++ (packed_file output.stderr ++ footer)
      → read_end r s ≡ ok (record output { status = some 0 })
  unfolding read_end
  read_end_lem s output v h h' e =
      let (t, e1, left, v1) = read_output_lem s output footer v h h' e in
      let (u, e2, left', v2) = read_exact-front t footer [] v1 (left ∙ sym (append-nil footer)) in
      let (b, w, e3) = total u 1 v2 in
      let nothing : b ≡ [] = append-empty b (rest w) (sym left' ∙ laws.splits u 1 v2 e3) in
      let e4 : r.read u 1 ≡ ok ([], w) = rw nothing at e3 in rw (e1, e2, e4)

  pub read_start_lem :
      (s : S) (n : ℕ) (more : Bytes)
      → Valid s
      → n < 2 ^ 64
      → rest s ≡ header ++ (le_bytes 8 n ++ more)
      → (t : S) × (read_start r s n ≡ ok t) × (rest t ≡ more) × Valid t
  unfolding read_start
  read_start_lem s n more v h e =
      let (t, e1, left, v1) = read_exact-front s header (le_bytes 8 n ++ more) v e in
      let (u, e2, left', v2) = read_usize-le_bytes r Valid rest laws total t n more v1 h left in
      let same : (n == n) ≡ true = (==_iff n n).1 refl in (u, rw (e1, e2, same), left', v2)
