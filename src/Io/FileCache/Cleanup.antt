-- ===== src/Io/FileCache/Cleanup.antt =====
-- `cleanup` of io/filecache.rs, from the files that `find_cache_files` lists.
pub mod Limit
use octobuild.Prelude.{
  ℕ, ◌+◌, ◌<◌, ◌≤◌, Bool, true, false, List, [], ◌∷◌, ◌++◌, if◌then◌else◌, Text, Result, ok, err,
  ◌>>=◌, ltb, leb, ◌≡◌, ◌⊎◌, inl, inr, refl, ap, sym, ◌∙◌, arith, Bool-cases, ltb→lt,
}
use octobuild.Io.Stream.{IoError}

pub record CacheFile : Type 0 where
  pub path : Text
  pub size : ℕ
  pub accessed : ℕ

-- `sort_by`, which is stable: the file that was used last comes first.
abbrev pub insert : CacheFile → List CacheFile → List CacheFile
insert f [] = f ∷ []
insert f (g ∷ gs) = if leb g.accessed f.accessed then f ∷ g ∷ gs else g ∷ insert f gs

abbrev pub sort_files : List CacheFile → List CacheFile
sort_files [] = []
sort_files (f ∷ fs) = insert f (sort_files fs)

module _ {D : Type 0} (remove_file : D → Text → Result IoError D) (cache_limit : ℕ) where
  -- The loop, with `cache_size`.
  unfoldable pub cleanup_loop : D → ℕ → List CacheFile → Result IoError D
  cleanup_loop d cache_size [] = ok d
  cleanup_loop d cache_size (item ∷ items) = elim (ltb cache_limit (cache_size + item.size)) [
    | true ↦ do d' ← remove_file d item.path; cleanup_loop d' (cache_size + item.size) items
    | false ↦ cleanup_loop d (cache_size + item.size) items
  ]

  unfoldable pub cleanup : D → List CacheFile → Result IoError D
  unfolding cleanup_loop
  cleanup d files = cleanup_loop d 0 (sort_files files)
