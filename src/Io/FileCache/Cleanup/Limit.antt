-- ===== src/Io/FileCache/Cleanup/Limit.antt =====
-- What `cleanup` leaves: the files that were used last, as far as the limit allows.
use mathlib.Core.List.{Perm}
use mathlib.Core.List.Perm
use mathlib.Core.Path.{subst}
use octobuild.Prelude.{
  ℕ, ◌+◌, ◌<◌, ◌≤◌, true, List, [], ◌∷◌, ◌++◌, Text, Result, ok, ◌>>=◌, ltb, leb, ◌≡◌, refl, ap,
  arith, Bool-cases, inl, inr, Result-cases, ltb→lt, leb→le,
}
use octobuild.Io.Stream.{IoError}
use octobuild.Io.FileCache.Cleanup.{CacheFile, insert, sort_files, cleanup_loop, cleanup}

abbrev pub total : List CacheFile → ℕ
total [] = 0
total (f ∷ fs) = f.size + total fs

-- None of the files was used after `f`.
abbrev pub AreOlder : CacheFile → List CacheFile → Type 0
AreOlder f [] = Unit
AreOlder f (g ∷ gs) = (g.accessed ≤ f.accessed) × AreOlder f gs

abbrev pub AreByAge : List CacheFile → Type 0
AreByAge [] = Unit
AreByAge (f ∷ fs) = AreOlder f fs × AreByAge fs

AreOlder-trans :
    (f g : CacheFile) (fs : List CacheFile)
    → g.accessed ≤ f.accessed
    → AreOlder g fs
    → AreOlder f fs
AreOlder-trans f g [] h o = tt
AreOlder-trans f g (x ∷ fs) h (a, o) = (omega arith, AreOlder-trans f g fs h o)

AreOlder-insert :
    (f g : CacheFile) (fs : List CacheFile)
    → g.accessed ≤ f.accessed
    → AreOlder f fs
    → AreOlder f (insert g fs)
AreOlder-insert f g [] h o = (h, tt)
AreOlder-insert f g (x ∷ fs) h (a, o) = elim (Bool-cases (leb x.accessed g.accessed)) [
  | inl e ↦ simp (e) (h, (a, o))
  | inr e ↦ simp (e) (a, AreOlder-insert f g fs h o)
]

AreByAge-insert : (f : CacheFile) (fs : List CacheFile) → AreByAge fs → AreByAge (insert f fs)
AreByAge-insert f [] h = (tt, tt)
AreByAge-insert f (x ∷ fs) (o, h) = elim (Bool-cases (leb x.accessed f.accessed)) [
  | inl e ↦
      let le = leb→le x.accessed f.accessed e in simp (e) ((le, AreOlder-trans f x fs le o), (o, h))
  | inr e ↦ simp (e) (AreOlder-insert x f fs (ground arith) o, AreByAge-insert f fs h)
]

sort_files-AreByAge : (fs : List CacheFile) → AreByAge (sort_files fs)
sort_files-AreByAge [] = tt
sort_files-AreByAge (f ∷ fs) = AreByAge-insert f (sort_files fs) (sort_files-AreByAge fs)

Perm-insert : (f : CacheFile) (fs : List CacheFile) → Perm (f ∷ fs) (insert f fs)
Perm-insert f [] = Perm.refl (f ∷ [])
Perm-insert f (x ∷ fs) = elim (Bool-cases (leb x.accessed f.accessed)) [
  | inl e ↦ simp (e) (Perm.refl (f ∷ x ∷ fs))
  | inr e ↦ simp (e) (Perm.trans (Perm.swap x f fs) (Perm.cons x (Perm-insert f fs)))
]

Perm-sort_files : (fs : List CacheFile) → Perm fs (sort_files fs)
Perm-sort_files [] = Perm.nil
Perm-sort_files (f ∷ fs) =
    Perm.trans (Perm.cons f (Perm-sort_files fs)) (Perm-insert f (sort_files fs))

-- The removal of some files, in order, up to the first error.
abbrev pub remove_all :
    {D : Type 0} → (D → Text → Result IoError D) → D → List CacheFile → Result IoError D
remove_all remove_file d [] = ok d
remove_all remove_file d (f ∷ fs) = remove_file d f.path >>= λ d'. remove_all remove_file d' fs

module _ {D : Type 0} (remove_file : D → Text → Result IoError D) (cache_limit : ℕ) where
  exceeded :
      (d : D) (n : ℕ) (fs : List CacheFile)
      → cache_limit < n
      → cleanup_loop remove_file cache_limit d n fs ≡ remove_all remove_file d fs
  unfolding cleanup_loop
  exceeded d n [] h = refl
  exceeded d n (f ∷ fs) h =
      let over : ltb cache_limit (n + f.size) ≡ true = ground arith in
      elim (Result-cases (remove_file d f.path)) [
        | inl (d', e) ↦ rw (over, e, cleanup_loop) (exceeded d' (n + f.size) fs (omega arith))
        | inr (x, e) ↦ rw (over, e, cleanup_loop)
      ]

  first_over :
      (d : D) (n : ℕ) (f : CacheFile) (fs : List CacheFile)
      → ltb cache_limit (n + f.size) ≡ true
      → cleanup_loop remove_file cache_limit d n (f ∷ fs) ≡ remove_all remove_file d (f ∷ fs)
  unfolding cleanup_loop
  first_over d n f fs over = elim (Result-cases (remove_file d f.path)) [
    | inl (d', e) ↦ rw (over, e, cleanup_loop) (exceeded d' (n + f.size) fs (ground arith))
    | inr (x, e) ↦ rw (over, e, cleanup_loop)
  ]

  -- The files that a run of the loop keeps, all before those that it removes.
  record Split (d : D) (n : ℕ) (fs : List CacheFile) : Type 0 where
    kept : List CacheFile
    removed : List CacheFile
    splits : fs ≡ kept ++ removed
    fits : n + total kept ≤ cache_limit
    full :
        (f : CacheFile) (rest : List CacheFile)
        → removed ≡ f ∷ rest
        → cache_limit < n + total kept + f.size
    does : cleanup_loop remove_file cache_limit d n fs ≡ remove_all remove_file d removed

  split : (d : D) (n : ℕ) (fs : List CacheFile) → n ≤ cache_limit → Split d n fs
  unfolding cleanup_loop
  split d n [] h = record {
    kept = [];
    removed = [];
    splits = refl;
    fits = omega arith;
    full = λ f rest e. cc;
    does = refl;
  }
  split d n (f ∷ fs) h = elim (Bool-cases (ltb cache_limit (n + f.size))) [
    | inl over ↦ record {
      kept = [];
      removed = f ∷ fs;
      splits = refl;
      fits = omega arith;
      full = λ g rest e.
          (let same : f ≡ g = cc in
            omega (arith, ap (λ x. x.size) same, ltb→lt cache_limit (n + f.size) over));
      does = first_over d n f fs over;
    }
    | inr under ↦
        let s = split d (n + f.size) fs (ground arith) in
        record {
          kept = f ∷ s.kept;
          removed = s.removed;
          splits = ap (◌∷◌ f) s.splits;
          fits = omega (arith, s.fits);
          full = λ g rest e. omega (arith, s.full g rest e);
          does = rw (under, cleanup_loop) s.does;
        }
  ]

  -- `cleanup` takes the files in the order of their last use, the latest first. It keeps a first part
  -- of them, whose sizes sum to the limit at most, and removes all the others, in order; the first
  -- file that it removes does not fit with those that it keeps.
  pub cleanup_lem :
      (d : D) (files : List CacheFile)
      → (kept : List CacheFile) × (removed : List CacheFile) × Perm files (kept ++ removed)
        × AreByAge (kept ++ removed)
        × (total kept ≤ cache_limit)
        × ((f : CacheFile) (rest : List CacheFile)
            → removed ≡ f ∷ rest
            → cache_limit < total kept + f.size)
        × (cleanup remove_file cache_limit d files ≡ remove_all remove_file d removed)
  unfolding cleanup
  cleanup_lem d files =
      let s = split d 0 (sort_files files) (omega arith) in
      (
        s.kept,
        s.removed,
        subst (Perm files) s.splits (Perm-sort_files files),
        subst AreByAge s.splits (sort_files-AreByAge files),
        omega (arith, s.fits),
        (λ f rest e. omega (arith, s.full f rest e)),
        s.does,
      )
