-- ===== src/Cluster/Coordinator.antt =====
-- bin/octo_coordinator.rs: the builders that the coordinator knows, each for five seconds from its last
-- update. An instant is a number of nanoseconds; the lock makes the requests one sequence.
pub mod Live
use octobuild.Prelude.{
  ℕ, ◌+◌, ◌*◌, ◌^◌, Bool, true, false, not, ◌&&◌, List, [], ◌∷◌, ◌++◌, ◌==◌, leb, if◌then◌else◌,
  Option, none, some, Text, text_eq,
}
use octobuild.Cluster.{BuilderInfo, BuilderInfoUpdate}

pub record BuilderState : Type 0 where
  pub guid : Text
  pub info : BuilderInfo
  pub timeout : ℕ

-- `IpAddr`; the library tells whether an address of version 6 is unspecified.
pub data IpAddr : Type 0 where
  v4 : ℕ → ℕ → ℕ → ℕ → IpAddr
  v6 : List ℕ → IpAddr

abbrev pub all_zero : List ℕ → Bool
all_zero [] = true
all_zero (x ∷ xs) = x == 0 && all_zero xs

unfoldable pub is_unspecified : IpAddr → Bool
is_unspecified (v4 a b c d) = all_zero (a ∷ b ∷ c ∷ d ∷ [])
is_unspecified (v6 segments) = all_zero segments

-- `SocketAddr`: `from_str` and `to_string`.
pub record Sockets : Type 0 where
  pub from_str : Text → Option (IpAddr × ℕ)
  pub to_string : IpAddr → ℕ → Text

abbrev pub five_seconds : ℕ
five_seconds = 5 * 10 ^ 9

-- `retain`, at the instant `now`.
unfoldable pub retain : Text → ℕ → List BuilderState → List BuilderState
retain guid now [] = []
retain guid now (e ∷ es) =
    let rest = retain guid now es in
    if not (text_eq e.guid guid) && leb now e.timeout then e ∷ rest else rest

-- The update of the list in `RpcAgentUpdateHandler::invoke`.
unfoldable pub update : ℕ → BuilderInfoUpdate → List BuilderState → List BuilderState
unfolding retain
update now u builders =
    retain u.guid now builders
    ++ (record { guid = u.guid; info = u.info; timeout = now + five_seconds }) ∷ []

-- The endpoint with the address of the sender, where the builder's own is unspecified.
unfoldable pub fix_endpoint : Sockets → IpAddr → BuilderInfo → Option BuilderInfo
unfolding is_unspecified
fix_endpoint sockets remote info = elim (sockets.from_str info.endpoint) [
  | none ↦ none
  | some (ip, port) ↦
      some (
        if is_unspecified ip
        then record info { endpoint = sockets.to_string remote port }
        else info)
]

-- `RpcAgentUpdateHandler::invoke`: the information that is sent back, or none for a bad request, and
-- the list.
unfoldable pub update_handler :
    Sockets
    → ℕ
    → IpAddr
    → BuilderInfoUpdate
    → List BuilderState
    → Option BuilderInfo × List BuilderState
unfolding fix_endpoint update
update_handler sockets now remote u builders = elim (fix_endpoint sockets remote u.info) [
  | none ↦ (none, builders)
  | some info ↦ (some info, update now (record u { info = info }) builders)
]

-- `RpcAgentListHandler::invoke`.
unfoldable pub list_builders : ℕ → List BuilderState → List BuilderInfo
list_builders now [] = []
list_builders now (e ∷ es) =
    let rest = list_builders now es in if leb now e.timeout then e.info ∷ rest else rest
