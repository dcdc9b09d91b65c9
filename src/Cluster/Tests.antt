-- ===== src/Cluster/Tests.antt =====
-- Tests of the coordinator and of the client.
use octobuild.Prelude.{
  ℕ, ◌+◌, ◌*◌, List, [], ◌∷◌, none, some, Text, codes, ok, err, ◌≡◌, refl, arith,
}
use octobuild.Compiler.Key.{CompileStep}
use octobuild.Io.Stream.{os}
use octobuild.Cluster.{BuilderInfo, BuilderInfoUpdate, CompileResponse}
use octobuild.Cluster.Coordinator.{v4, Sockets, fix_endpoint, five_seconds, list_builders, update}
use octobuild.Cluster.Coordinator.Live.{
  History, replay, last_updates, live, infos, list_builders-replay,
}
use octobuild.Cluster.Client.{
  builders, one_second, contains, get_random_builder, Network, Status, compile_remote, write_output,
}
use octobuild.Cluster.Client.Chosen.{IsChoice, get_random_builder-IsChoice}

abbrev builder : Text → BuilderInfo
builder name = record {
  name = name;
  endpoint = codes "0.0.0.0:1";
  version = codes "1";
  toolchains = codes "cl" ∷ [];
}

abbrev sent : Text → BuilderInfoUpdate
sent name = record { guid = name; info = builder name }

-- `a` is updated twice, and the update of `b` runs out.
abbrev updates : History
updates = (2 * five_seconds, sent (codes "a")) ∷ (7, sent (codes "b")) ∷ (5, sent (codes "a")) ∷ []

list_updates : list_builders (2 * five_seconds) (replay updates) ≡ builder (codes "a") ∷ []
unfolding list_builders update
list_updates = refl

list_builders-replay_example :
    list_builders (2 * five_seconds) (replay updates)
    ≡ infos (live (2 * five_seconds) (last_updates updates))
list_builders-replay_example =
    list_builders-replay (2 * five_seconds) updates (omega arith, (omega arith, (omega arith, tt)))

abbrev one_socket : Sockets
one_socket = record { from_str = λ t. some (v4 0 0 0 0, 1); to_string = λ ip port. codes "fixed" }

unspecified_endpoint :
    fix_endpoint one_socket (v4 10 0 0 1) (builder (codes "a"))
    ≡ some (record (builder (codes "a")) { endpoint = codes "fixed" })
unfolding fix_endpoint
unspecified_endpoint = refl

-- Behind an error the list is kept, and the coordinator is left alone for a second.
failed_request :
    builders 9 (err (os 1)) (record { cooldown = 5; builders = [] })
    ≡ record { cooldown = 9 + one_second; builders = [] }
unfolding builders
failed_request = refl

get_random_builder-IsChoice_example :
    IsChoice
      (λ b. contains (codes "cl") b.toolchains)
      (builder (codes "a") ∷ builder (codes "b") ∷ [])
      (get_random_builder 5
        (builder (codes "a") ∷ builder (codes "b") ∷ [])
        (λ b. contains (codes "cl") b.toolchains))
get_random_builder-IsChoice_example =
    get_random_builder-IsChoice 5 (builder (codes "a") ∷ builder (codes "b") ∷ [])
      (λ b. contains (codes "cl") b.toolchains)

-- A network on which a write takes one byte, and the file of the last write is the state.
abbrev slow : Network (List ℕ) (Unit {0})
slow = record {
  head = λ d a h. (d, ok Status.accepted);
  upload = λ d a h p. (d, ok Status.accepted);
  post_task = λ d a q. (
    d,
    ok (
        CompileResponse.success (record { status = some 0; stdout = []; stderr = [] })
          (1 ∷ 2 ∷ [])),
  );
  create = λ d p. ([], ok tt);
  write = λ d p b. (elim b [ [] ↦ d | c ∷ _ ↦ c ∷ [] ], ok 1);
  remove = λ d p. ([], ok tt);
  file_hash = λ d p. ok p;
}

abbrev step : CompileStep
step = record {
  args = [];
  input_precompiled = none;
  output_object = some (codes "a.o");
  output_precompiled = none;
  preprocessed = [];
}

-- The object file of two bytes is cut to the first, and the compilation succeeds.
short_write : compile_remote slow [] (some (codes "cl")) (λ name. some tt) step ≡ (
  1 ∷ [],
  ok (CompileResponse.success (record { status = some 0; stdout = []; stderr = [] }) (1 ∷ 2 ∷ [])),
)
unfolding compile_remote write_output
short_write = refl
