-- ===== src/Cluster/Coordinator/Live.antt =====
-- What the coordinator shows against a history of updates.
use octobuild.Prelude.{
  ℕ, ◌+◌, ◌≤◌, List, [], ◌∷◌, ◌++◌, leb, if◌then◌else◌, Text, text_eq, ◌≡◌, refl, sym, ap, ◌∙◌,
  arith,
}
use octobuild.Cluster.{BuilderInfo, BuilderInfoUpdate}
use octobuild.Cluster.Coordinator.{BuilderState, five_seconds, retain, update, list_builders}

-- Updates with their instants, the last one first.
abbrev pub History : Type 0
History = List (ℕ × BuilderInfoUpdate)

abbrev pub IsOrdered : ℕ → History → Type 0
IsOrdered now [] = Unit
IsOrdered now ((t, u) ∷ h) = (t ≤ now) × IsOrdered t h

-- The coordinator's list behind a history.
abbrev pub replay : History → List BuilderState
unfolding update
replay [] = []
replay ((t, u) ∷ h) = update t u (replay h)

abbrev pub forget : Text → List BuilderState → List BuilderState
forget guid [] = []
forget guid (e ∷ es) = if text_eq e.guid guid then forget guid es else e ∷ forget guid es

-- The last update of each builder, in the order of these updates, however long ago they were.
abbrev pub last_updates : History → List BuilderState
last_updates [] = []
last_updates ((t, u) ∷ h) =
    forget u.guid (last_updates h)
    ++ (record { guid = u.guid; info = u.info; timeout = t + five_seconds }) ∷ []

-- Those that are still live.
abbrev pub live : ℕ → List BuilderState → List BuilderState
live now [] = []
live now (e ∷ es) = if leb now e.timeout then e ∷ live now es else live now es

abbrev pub infos : List BuilderState → List BuilderInfo
infos [] = []
infos (b ∷ bs) = b.info ∷ infos bs

list_builders-live : (now : ℕ) (xs : List BuilderState) → list_builders now xs ≡ infos (live now xs)
unfolding list_builders
list_builders-live now [] = refl
list_builders-live now (e ∷ es) = ground (arith, list_builders-live now es)

live-append :
    (now : ℕ) (xs ys : List BuilderState) → live now (xs ++ ys) ≡ live now xs ++ live now ys
live-append now [] ys = refl
live-append now (e ∷ es) ys = ground (arith, live-append now es ys)

live-forget :
    (now : ℕ) (guid : Text) (xs : List BuilderState)
    → live now (forget guid xs) ≡ forget guid (live now xs)
live-forget now guid [] = refl
live-forget now guid (e ∷ es) = ground (arith, live-forget now guid es)

live-retain :
    (now t : ℕ) (guid : Text) (xs : List BuilderState)
    → t ≤ now
    → live now (retain guid t xs) ≡ forget guid (live now xs)
unfolding retain
live-retain now t guid [] h = refl
live-retain now t guid (e ∷ es) h = ground (arith, live-retain now t guid es)

IsOrdered-le : (t now : ℕ) (h : History) → t ≤ now → IsOrdered t h → IsOrdered now h
IsOrdered-le t now [] le o = tt
IsOrdered-le t now ((t', u) ∷ h) le (le', o) = (omega (arith, le, le'), o)

live-replay :
    (now : ℕ) (h : History) → IsOrdered now h → live now (replay h) ≡ live now (last_updates h)
unfolding update
live-replay now [] o = refl
live-replay now ((t, u) ∷ h) (le, o) =
    let entry : List BuilderState =
      (record { guid = u.guid; info = u.info; timeout = t + five_seconds }) ∷ [] in
    live-append now (retain u.guid t (replay h)) entry
    ∙ ap (λ x. x ++ live now entry)
        (live-retain now t u.guid (replay h) le
          ∙ ap (forget u.guid) (live-replay now h (IsOrdered-le t now h le o))
          ∙ sym (live-forget now u.guid (last_updates h)))
    ∙ sym (live-append now (forget u.guid (last_updates h)) entry)

-- The handler forgets builders only where nobody can see it: behind any history of updates the list
-- that is shown at a later instant has the information of each builder's last update, in the order
-- of these updates, if that is five seconds old at most, and no other. A clock that does not go back
-- is assumed.
pub list_builders-replay :
    (now : ℕ) (h : History)
    → IsOrdered now h
    → list_builders now (replay h) ≡ infos (live now (last_updates h))
list_builders-replay now h o = list_builders-live now (replay h) ∙ ap infos (live-replay now h o)
