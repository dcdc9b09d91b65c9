-- ===== src/Cache/Tests.antt =====
-- Tests of the cache of hashes.
use octobuild.Prelude.{leb, List, [], ◌∷◌, if◌then◌else◌, some, Text, codes, ok, ◌≡◌, refl, arith}
use octobuild.Cache.{FileHash, Files, run_cached, Entry, worker, file_hash}
use octobuild.Cache.Fresh.{IsStamped, IsFresh, IsCurrent, file_hash-IsFresh}

-- A file that is written to behind the instant 2, and gets another size.
abbrev written : Files
written = record {
  metadata = λ t path. some (if leb t 2 then (4, 1) else (5, 3));
  generate_file_hash = λ t path. ok (codes (if leb t 2 then "a" else "b"));
}

abbrev hashed : FileHash
hashed = record { hash = codes "a"; size = 4; modified = 1 }

abbrev first : List (Text × Entry)
first = (codes "f", ok hashed) ∷ []

abbrev second : List (Text × Entry)
second = (codes "f", ok (record { hash = codes "b"; size = 5; modified = 3 })) ∷ []

first_call : file_hash written 0 1 [] (codes "f") ≡ (ok hashed, first)
unfolding file_hash run_cached worker
first_call = refl

-- Nothing is read while the stamp is the same, even at an instant of other contents.
unchanged_file : file_hash written 2 3 first (codes "f") ≡ (ok hashed, first)
unfolding file_hash run_cached worker
unchanged_file = refl

changed_file : (file_hash written 3 4 first (codes "f")).1 ≡ second
unfolding file_hash run_cached worker
changed_file = refl

written-IsStamped : IsStamped written
written-IsStamped path stat s t u le le' e e' = ground arith

first-IsFresh : IsFresh written 1 first
unfolding file_hash run_cached worker
first-IsFresh =
    (file_hash-IsFresh written written-IsStamped 0 0 1 (omega arith) (omega arith) [] (λ p v e. cc)
      (codes "f")).1

file_hash-IsFresh_example :
    ((v : FileHash)
      → (file_hash written 3 4 first (codes "f")).0 ≡ ok v
      → IsCurrent written 3 4 (codes "f") v)
    × IsFresh written 4 (file_hash written 3 4 first (codes "f")).1
file_hash-IsFresh_example =
    file_hash-IsFresh written written-IsStamped 1 3 4 (omega arith) (omega arith) first
      first-IsFresh (codes "f")
