-- ===== src/Compiler/Key.antt =====
-- The key under which `compile_step_cached` of compiler.rs looks a compilation up: what `Hasher` feeds
-- to the digest. A hasher's state is the bytes that it was fed; SHA-256 is the parameter `digest`.
pub mod Injective
use octobuild.Prelude.{
  ℕ, zero, suc, ◌+◌, ◌/◌, ◌%◌, ◌^◌, ◌<◌, Bool, true, false, List, [], ◌∷◌, ◌++◌, Option, none, some,
  Bytes, Text, Result, ok, err, ◌>>=◌, length, ◌≡◌, ◌≢◌, refl, ap, sym, ◌∙◌, arith, append_assoc,
  append-injective, length-append, if◌then◌else◌,
}
use octobuild.Io.Stream.{IoError}
use octobuild.Io.Binary.{le_bytes}
use octobuild.Io.Binary.Words.{length-le_bytes, le_bytes-injective}

-- `CompileStep`. An argument is the bytes of its text, the preprocessed stream its contents.
pub record CompileStep : Type 0 where
  pub args : List Bytes
  pub input_precompiled : Option Text
  pub output_object : Option Text
  pub output_precompiled : Option Text
  pub preprocessed : Bytes

-- `buf[0] = n & 0xFF; n >>= 8; …` for eight bytes is `le_bytes 8`.
unfoldable pub hash_u64 : Bytes → ℕ → Bytes
hash_u64 fed number = fed ++ le_bytes 8 number

abbrev pub hash_u8 : Bytes → ℕ → Bytes
hash_u8 fed number = fed ++ number ∷ []

unfoldable pub hash_bytes : Bytes → Bytes → Bytes
unfolding hash_u64
hash_bytes fed bytes = hash_u64 fed (length bytes % 2 ^ 64) ++ bytes

-- The loop over the arguments.
unfoldable pub hash_args : Bytes → List Bytes → Bytes
unfolding hash_bytes
hash_args fed [] = fed
hash_args fed (a ∷ args) = hash_args (hash_bytes fed a) args

abbrev pub is_some {ℓ} : {A : Type ℓ} → Option A → Bool
is_some none = false
is_some (some _) = true

abbrev pub hash_precompiled : Bytes → Option Bytes → Bytes
hash_precompiled fed none = hash_u64 fed 0
hash_precompiled fed (some hash) = hash_bytes fed hash

-- Everything that is fed, given the hash of the precompiled header that is read.
unfoldable pub hashed : CompileStep → Option Bytes → Bytes
unfolding hash_args
hashed task header =
    let fed = hash_u64 [] (length task.preprocessed % 2 ^ 64) ++ task.preprocessed in
    let fed_args = hash_args (hash_u64 fed (length task.args % 2 ^ 64)) task.args in
    hash_u8 (hash_precompiled fed_args header) (if is_some task.output_precompiled then 1 else 0)

-- The key: the digest of it, or the error of `file_hash`.
unfoldable pub cache_key :
    (Text → Result IoError Bytes) → (Bytes → Text) → CompileStep → Result IoError Text
unfolding hashed
cache_key file_hash digest task = elim task.input_precompiled [
  | none ↦ ok (digest (hashed task none))
  | some path ↦ do hash ← file_hash path; ok (digest (hashed task (some hash)))
]

-- The output files, in the order in which they are stored.
abbrev pub outputs_of : CompileStep → List Text
outputs_of task =
    (elim task.output_object [ some path ↦ path ∷ [] | none ↦ [] ])
    ++ (elim task.output_precompiled [ some path ↦ path ∷ [] | none ↦ [] ])
