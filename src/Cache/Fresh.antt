-- ===== src/Cache/Fresh.antt =====
-- The cache of hashes gives no hash of old contents.
use mathlib.Core.Path.{subst}
use octobuild.Prelude.{
  ℕ, ◌≤◌, Bool, true, false, ◌&&◌, List, ◌==◌, if◌then◌else◌, Option, none, some, Text, text_eq,
  text_eq_iff, Result, ok, err, ◌≡◌, refl, sym, ap, ◌∙◌, ◌⊎◌, inl, inr, arith, Bool-cases,
  Option-cases, get, insert, get-insert,
}
use octobuild.Io.Stream.{IoError}
use octobuild.Cache.{
  FileHash, Files, Entry, still_valid, generated, checked, worker, or_io_error, file_hash,
}

-- A file whose size and time of modification are the same at two instants had the same contents
-- between them.
abbrev pub IsStamped : Files → Type 0
IsStamped files =
    (path : Text) (stat : ℕ × ℕ) (s t u : ℕ)
    → s ≤ t
    → t ≤ u
    → files.metadata s path ≡ some stat
    → files.metadata u path ≡ some stat
    → files.generate_file_hash t path ≡ files.generate_file_hash u path

some-injective : {x y : Entry} → Path (Option Entry) (some x) (some y) → x ≡ y
some-injective e = cc

module _ (files : Files) where
  -- The hash was read behind the stamp, not later than `now`.
  pub record WasRead (now : ℕ) (path : Text) (v : FileHash) : Type 0 where
    pub stamped : ℕ
    pub read : ℕ
    pub in_order : stamped ≤ read
    pub past : read ≤ now
    pub stamp_is : files.metadata stamped path ≡ some (v.size, v.modified)
    pub hash_is : files.generate_file_hash read path ≡ ok v.hash

  abbrev pub IsFresh : ℕ → List (Text × Entry) → Type 0
  IsFresh now cache =
      (path : Text) (v : FileHash) → get cache path ≡ some (ok v) → WasRead now path v

  WasRead-le : (t u : ℕ) (path : Text) (v : FileHash) → t ≤ u → WasRead t path v → WasRead u path v
  WasRead-le t u path v le r = record {
    stamped = r.stamped;
    read = r.read;
    in_order = r.in_order;
    past = omega (arith, r.past, le);
    stamp_is = r.stamp_is;
    hash_is = r.hash_is;
  }

  -- What the worker returns: an error, a value of the cache whose stamp is still that of the file, or a
  -- value that is read.
  pub data IsWork (t1 t2 : ℕ) (path : Text) (cached : Option Entry) : Entry → Type 0 where
    fails : IsWork t1 t2 path cached (err tt)
    reused :
        {v : FileHash}
        → cached ≡ some (ok v)
        → files.metadata t1 path ≡ some (v.size, v.modified)
        → IsWork t1 t2 path cached (ok v)
    reads :
        {v : FileHash}
        → files.metadata t1 path ≡ some (v.size, v.modified)
        → files.generate_file_hash t2 path ≡ ok v.hash
        → IsWork t1 t2 path cached (ok v)

  module _ (t1 t2 : ℕ) (path : Text) where
    generated-IsWork :
        (stat : ℕ × ℕ) (cached : Option Entry) (hash : Result IoError Text)
        → files.metadata t1 path ≡ some stat
        → files.generate_file_hash t2 path ≡ hash
        → IsWork t1 t2 path cached (generated files stat hash)
    generated-IsWork stat cached (ok h) e e' = reads e e'
    generated-IsWork stat cached (err x) e e' = fails

    valid-IsWork :
        (b : Bool) (stat : ℕ × ℕ) (v : FileHash)
        → files.metadata t1 path ≡ some stat
        → (v.size == stat.0 && v.modified == stat.1) ≡ b
        → IsWork t1 t2 path
            (some (ok v))
            (checked files stat (files.generate_file_hash t2 path) (if b then some v else none))
    valid-IsWork true stat v e same =
        let size_is : v.size ≡ stat.0 = ground arith in
        let modified_is : v.modified ≡ stat.1 = ground arith in reused refl (e ∙ cc)
    valid-IsWork false stat v e same =
        generated-IsWork stat (some (ok v)) (files.generate_file_hash t2 path) e refl

    checked-IsWork :
        (stat : ℕ × ℕ) (cached : Option Entry)
        → files.metadata t1 path ≡ some stat
        → IsWork t1 t2 path cached
            (checked files stat (files.generate_file_hash t2 path) (still_valid files stat cached))
    checked-IsWork stat none e =
        generated-IsWork stat none (files.generate_file_hash t2 path) e refl
    checked-IsWork stat (some (err x)) e =
        generated-IsWork stat (some (err x)) (files.generate_file_hash t2 path) e refl
    checked-IsWork stat (some (ok v)) e =
        valid-IsWork (v.size == stat.0 && v.modified == stat.1) stat v e refl

    worker-IsWork :
        (cached : Option Entry) → IsWork t1 t2 path cached (worker files t1 t2 path cached)
    unfolding worker
    worker-IsWork cached = elim (Option-cases (files.metadata t1 path)) [
      | inl none_ ↦ rw (none_, worker) fails
      | inr (stat, some_) ↦ rw (some_, worker) (checked-IsWork stat cached some_)
    ]

  -- The hash is that of the contents at the one or the other instant of the call.
  abbrev pub IsCurrent : ℕ → ℕ → Text → FileHash → Type 0
  IsCurrent t1 t2 path v =
      (files.generate_file_hash t1 path ≡ ok v.hash)
      ⊎ (files.generate_file_hash t2 path ≡ ok v.hash)

  module _ (stamps : IsStamped files) (now t1 t2 : ℕ) (le : now ≤ t1) (le' : t1 ≤ t2)
      (cache : List (Text × Entry)) (fresh : IsFresh now cache) (path : Text) where
    -- What a value of the worker says of the file.
    abbrev Says : Entry → Type 0
    Says e = (v : FileHash) → e ≡ ok v → IsCurrent t1 t2 path v × WasRead t2 path v

    IsWork-Says : (e : Entry) → IsWork t1 t2 path (get cache path) e → Says e
    IsWork-Says _ fails v e = cc
    IsWork-Says _ (reads {v = x} stamp hash) v e =
        let same : x ≡ v = cc in
        subst (λ y. IsCurrent t1 t2 path y × WasRead t2 path y) same
          (
            inr hash,
            record {
              stamped = t1;
              read = t2;
              in_order = le';
              past = omega arith;
              stamp_is = stamp;
              hash_is = hash;
            },
          )
    IsWork-Says _ (reused {v = x} found stamp) v e =
        let same : x ≡ v = cc in
        let was = fresh path x found in
        let current =
          stamps path (x.size, x.modified) was.stamped was.read t1 was.in_order
            (omega (arith, was.past, le)) was.stamp_is stamp in
        subst (λ y. IsCurrent t1 t2 path y × WasRead t2 path y) same
          (inl (sym current ∙ was.hash_is), WasRead-le now t2 path x (omega (arith, le, le')) was)

    value : Entry
    value = worker files t1 t2 path (get cache path)

    value-Says : Says value
    unfolding value
    value-Says = IsWork-Says value (worker-IsWork t1 t2 path (get cache path))

    found-insert :
        (p : Text) (v : FileHash)
        → get (insert cache path value) p ≡ some (ok v)
        → text_eq path p ≡ true
        → Path (Option Entry) (some value) (some (ok v))
    found-insert p v e same =
        sym (ap (λ b. if b then some value else get cache p) same)
        ∙ sym (get-insert cache path p value)
        ∙ e

    kept-insert :
        (p : Text) (v : FileHash)
        → get (insert cache path value) p ≡ some (ok v)
        → text_eq path p ≡ false
        → get cache p ≡ some (ok v)
    kept-insert p v e other =
        sym (ap (λ b. if b then some value else get cache p) other)
        ∙ sym (get-insert cache path p value)
        ∙ e

    insert-IsFresh : IsFresh t2 (insert cache path value)
    insert-IsFresh p v e = elim (Bool-cases (text_eq path p)) [
      | inl same ↦
          let found : value ≡ ok v = some-injective (found-insert p v e same) in
          subst (λ q. WasRead t2 q v) ((text_eq_iff path p).0 same) (value-Says v found).1
      | inr other ↦
          WasRead-le now t2 p v (omega (arith, le, le')) (fresh p v (kept-insert p v e other))
    ]

    or_io_error-ok : (e : Entry) (v : FileHash) → or_io_error files e ≡ ok v → e ≡ ok v
    or_io_error-ok (ok x) v e = cc
    or_io_error-ok (err x) v e = cc

    -- The cache of hashes is invisible: as long as a file that changes changes its size or its time of
    -- modification, a hash that `file_hash` returns is that of the contents at an instant of the call,
    -- also if other programs write to files all the time, and the cache stays such.
    pub file_hash-IsFresh :
        ((v : FileHash) → (file_hash files t1 t2 cache path).0 ≡ ok v → IsCurrent t1 t2 path v)
        × IsFresh t2 (file_hash files t1 t2 cache path).1
    unfolding file_hash value
    file_hash-IsFresh = (λ v e. (value-Says v (or_io_error-ok value v e)).0, insert-IsFresh)
