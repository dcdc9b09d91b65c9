-- ===== src/Cluster/Client.antt =====
-- cluster/client.rs: the list of builders with its cooldown, the choice of a builder, and the
-- compilation on a builder or at home. Requests over the network are the parameter `Network`.
pub mod Chosen
use octobuild.Prelude.{
  ℕ, ◌+◌, ◌*◌, ◌^◌, ◌%◌, Bool, true, false, ◌||◌, List, [], ◌∷◌, leb, ◌==◌, if◌then◌else◌, Option,
  none, some, Text, Bytes, text_eq, Result, ok, err, ◌>>=◌, length, get_elem?,
}
use octobuild.Compiler.{OutputInfo, success}
use octobuild.Compiler.Key.{CompileStep, is_some}
use octobuild.Io.Stream.{IoError, os, panic}
use octobuild.Cluster.{BuilderInfo, CompileRequest, CompileResponse, failure}
use octobuild.Cluster.Coordinator.{five_seconds}

-- `RemoteSharedMut`.
pub record Builders : Type 0 where
  pub cooldown : ℕ
  pub builders : List BuilderInfo

abbrev pub one_second : ℕ
one_second = 10 ^ 9

-- `builders`, at the instant `now`, with what the coordinator answers if it is asked.
unfoldable pub builders : ℕ → Result IoError (List BuilderInfo) → Builders → Builders
builders now received s = if leb now s.cooldown then s else elim received [
  | ok bs ↦ record { cooldown = now + five_seconds; builders = bs }
  | err _ ↦ record s { cooldown = now + one_second }
]

abbrev pub filtered : (BuilderInfo → Bool) → List BuilderInfo → List BuilderInfo
filtered test [] = []
filtered test (b ∷ bs) = if test b then b ∷ filtered test bs else filtered test bs

-- An index into a vector.
abbrev pub or_panic : Option BuilderInfo → Result IoError (Option BuilderInfo)
or_panic none = err panic
or_panic (some b) = ok (some b)

abbrev pub index : List BuilderInfo → ℕ → Result IoError (Option BuilderInfo)
index bs i = or_panic (get_elem? bs i)

abbrev pub choose : ℕ → List BuilderInfo → Result IoError (Option BuilderInfo)
choose random [] = ok none
choose random (b ∷ bs) = index (b ∷ bs) (random % length (b ∷ bs))

-- `get_random_builder`, for the number that `rand` gives.
unfoldable pub get_random_builder :
    ℕ → List BuilderInfo → (BuilderInfo → Bool) → Result IoError (Option BuilderInfo)
get_random_builder random bs test = choose random (filtered test bs)

abbrev pub contains : Text → List Text → Bool
contains name [] = false
contains name (t ∷ ts) = text_eq t name || contains name ts

-- `remote_endpoint`, behind `builders`; `from_str` reads a `SocketAddr`.
unfoldable pub remote_endpoint :
    {A : Type 0} → (Text → Option A) → ℕ → List BuilderInfo → Text → Result IoError (Option A)
unfolding get_random_builder
remote_endpoint from_str random bs name = do
  chosen ← get_random_builder random bs (λ b. contains name b.toolchains)
  ok (elim chosen [ none ↦ none | some b ↦ from_str b.endpoint ])

-- The status of a response, as far as it is looked at.
pub data Status : Type 0 where
  accepted other_status : Status

-- The network and the file system, with states `D`. `write` is one call on a new file, which may take
-- a part only.
pub record Network (D A : Type 0) : Type 0 where
  pub head : D → A → Text → D × Result IoError Status
  pub upload : D → A → Text → Text → D × Result IoError Status
  pub post_task : D → A → CompileRequest → D × Result IoError CompileResponse
  pub create : D → Text → D × Result IoError (Unit {0})
  pub write : D → Text → Bytes → D × Result IoError ℕ
  pub remove : D → Text → D × Result IoError (Unit {0})
  pub file_hash : D → Text → Result IoError Text

-- `Can't upload precompiled header`, and the errors of kind `Other`.
abbrev pub other_error : IoError
other_error = os 0

module _ {D A : Type 0} (net : Network D A) where
  abbrev pub uploaded : Text → D × Result IoError Status → D × Result IoError (Option Text)
  uploaded hash (d, err e) = (d, err e)
  uploaded hash (d, ok accepted) = (d, ok (some hash))
  uploaded hash (d, ok other_status) = (d, err other_error)

  abbrev pub asked : A → Text → Text → D × Result IoError Status → D × Result IoError (Option Text)
  asked addr path hash (d, err e) = (d, err e)
  asked addr path hash (d, ok accepted) = (d, ok (some hash))
  asked addr path hash (d, ok other_status) = uploaded hash (net.upload d addr hash path)

  -- `upload_precompiled`; the opening of the file is a part of the upload.
  unfoldable pub upload_precompiled : D → A → Option Text → D × Result IoError (Option Text)
  upload_precompiled d addr none = (d, ok none)
  upload_precompiled d addr (some path) = elim (net.file_hash d path) [
    | err e ↦ (d, err e)
    | ok hash ↦ asked addr path hash (net.head d addr hash)
  ]

  -- The write of `write_output`: what was written is not looked at, and on an error the file is
  -- removed.
  abbrev pub wrote : Text → D × Result IoError ℕ → D × Result IoError (Unit {0})
  wrote path (d, ok n) = (d, ok tt)
  wrote path (d, err e) = let (d', _) = net.remove d path in (d', err e)

  abbrev pub created : Text → Bytes → D × Result IoError (Unit {0}) → D × Result IoError (Unit {0})
  created path content (d, err e) = (d, err e)
  created path content (d, ok _) = wrote path (net.write d path content)

  unfoldable pub write_output : D → Option Text → Bool → Bytes → D × Result IoError (Unit {0})
  write_output d none succeeded content = (d, ok tt)
  write_output d (some path) succeeded content =
      if succeeded then created path content (net.create d path) else net.remove d path

  -- The end of `compile_remote`: the output of a success is written.
  abbrev pub received :
      CompileStep → D × Result IoError CompileResponse → D × Result IoError CompileResponse
  unfolding write_output
  received task (d, err e) = (d, err e)
  received task (d, ok (failure text)) = (d, ok (failure text))
  received task (d, ok (CompileResponse.success output content)) =
      let (d', w) = write_output d task.output_object (success output) content in
      (d', w >>= λ _. ok (CompileResponse.success output content))

  abbrev pub with_header :
      A → Text → CompileStep → D × Result IoError (Option Text) → D × Result IoError CompileResponse
  with_header addr name task (d, err e) = (d, err e)
  with_header addr name task (d, ok hash) = received task (
      net.post_task d addr (record {
        toolchain = name;
        args = task.args;
        preprocessed_data = task.preprocessed;
        precompiled_hash = hash;
      }))

  -- `compile_remote`, with the toolchain's name and the builder's address if there are such.
  unfoldable pub compile_remote :
      D → Option Text → (Text → Option A) → CompileStep → D × Result IoError CompileResponse
  unfolding upload_precompiled
  compile_remote d identifier endpoint task = elim identifier [
    | none ↦ (d, err other_error)
    | some name ↦ elim (endpoint name) [
      | none ↦ (d, err other_error)
      | some addr ↦
          if is_some task.output_precompiled
          then (d, err other_error)
          else with_header addr name task (upload_precompiled d addr task.input_precompiled)
    ]
  ]

  -- `compile_step`: an error falls back to the local compiler.
  abbrev pub or_local :
      (D → CompileStep → D × Result IoError OutputInfo)
      → CompileStep
      → D × Result IoError CompileResponse
      → D × Result IoError OutputInfo
  or_local local task (d, ok (CompileResponse.success output content)) = (d, ok output)
  or_local local task (d, ok (failure text)) = (d, err other_error)
  or_local local task (d, err e) = local d task

  unfoldable pub compile_step :
      (D → CompileStep → D × Result IoError OutputInfo)
      → D
      → Option Text
      → (Text → Option A)
      → CompileStep
      → D × Result IoError OutputInfo
  unfolding compile_remote
  compile_step local d identifier endpoint task =
      or_local local task (compile_remote d identifier endpoint task)
