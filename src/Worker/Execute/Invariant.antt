-- ===== src/Worker/Execute/Invariant.antt =====
-- The tasks in flight are exactly those that are ready: sent once, and never before what they
-- depend on is completed.
use mathlib.Core.Path.{subst}
use octobuild.Prelude.{
  ℕ, suc, ◌+◌, ◌<◌, Bool, true, false, List, [], ◌∷◌, ◌==◌, length, set, replicate, flag, ◌≡◌, ◌≢◌,
  ◌↔◌, ◌⊎◌, refl, ap, ◌∙◌, sym, arith, List-cases, Bool-cases, inl, inr, In, In-append, AreDistinct,
  AreDistinct-append, AreDistinct-remove, In-of_remove, In-remove_ne, remove, trues, length-set,
  set-true, set-false, set_other, set_keeps, trues-set, flag_of_trues, flag-replicate,
  trues-replicate, length-replicate,
}
use octobuild.Worker.Graph.{
  Graph, is_ready, IsGraph, IsSimple, IsBuildable, build, IsAcyclic, is_ready-true, is_ready-false,
  is_ready_intro,
}
use octobuild.Worker.Execute.{Run, initial, ready_of, completes}

module _ (g : Graph) where
  -- A task is to be worked on: not completed, and all that it depends on is.
  abbrev pub IsDue : List Bool → ℕ → Type 0
  IsDue completed u =
      (u < g.node_count) × (flag completed u ≡ false) × (is_ready g completed u ≡ true)

  pub record Inv (s : Run) : Type 0 where
    pub size : length s.completed ≡ g.node_count
    pub counted : s.count ≡ trues s.completed
    pub unfinished : s.count < g.node_count
    -- in dependency order
    pub closed : (u : ℕ) → flag s.completed u ≡ true → is_ready g s.completed u ≡ true
    pub distinct : AreDistinct s.in_flight
    pub in_flight_are : (u : ℕ) → In u s.in_flight ↔ IsDue s.completed u

  In-ready_of :
      (completed : List Bool) (us : List ℕ) (u : ℕ)
      → In u (ready_of g completed us) ↔ (In u us × (is_ready g completed u ≡ true))
  unfolding ready_of
  In-ready_of completed [] u = (λ m. absurd m, λ m. m.0)
  In-ready_of completed (x ∷ us) u = elim (Bool-cases (is_ready g completed x)) [
    | inl r ↦ ground (arith, In-ready_of completed us u)
    | inr r ↦
        ground
          (arith, In-ready_of completed us u, ap {B = Bool} (is_ready g completed) {x = u} {y = x})
  ]

  AreDistinct-ready_of :
      (completed : List Bool) (us : List ℕ) → AreDistinct us → AreDistinct (ready_of g completed us)
  unfolding ready_of
  AreDistinct-ready_of completed [] d = tt
  AreDistinct-ready_of completed (x ∷ us) d = elim (Bool-cases (is_ready g completed x)) [
    | inl r ↦
        rw (r, ready_of)
          ((λ m. d.0 ((In-ready_of completed us x).0 m).0), AreDistinct-ready_of completed us d.1)
    | inr r ↦ rw (r, ready_of) (AreDistinct-ready_of completed us d.1)
  ]

  pub Inv-initial : IsGraph g → 0 < g.node_count → Inv (initial g)
  Inv-initial laws h = record {
    size = length-replicate g.node_count false;
    counted = sym (trues-replicate g.node_count);
    unfinished = h;
    closed = λ u f. cc (f, flag-replicate g.node_count u);
    distinct = laws.externals_distinct;
    in_flight_are = λ u. (
      λ m.
          let (l, e) = (laws.externals_are u).0 m in
          (
            l,
            flag-replicate g.node_count u,
            is_ready_intro g _ u (λ v w. absurd (subst (In v) e w)),
          ),
      λ (l, f, r). (laws.externals_are u).1 (l, no_edges u r),
    );
  }
    where
      no_edges : (u : ℕ) → is_ready g (replicate g.node_count false) u ≡ true → g.outgoing u ≡ []
      no_edges u r = elim (List-cases (g.outgoing u)) [
        | inl e ↦ e
        | inr (v, vs, e) ↦ cc (
          is_ready-true g (replicate g.node_count false) u v r (rw e (inl refl)),
          flag-replicate g.node_count v,
        )
      ]

  module _ (laws : IsGraph g) (simple : IsSimple g) (s : Run) (i : Inv s) (index : ℕ)
      (flying : In index s.in_flight) where
    due : IsDue s.completed index
    due = (i.in_flight_are index).0 flying

    below : index < length s.completed
    below = omega (arith, due.0, i.size)

    abbrev after : List Bool
    after = set s.completed index true

    -- What was ready stays so.
    ready_keeps : (u : ℕ) → is_ready g s.completed u ≡ true → is_ready g after u ≡ true
    ready_keeps u r =
        is_ready_intro g after u
          (λ v m. set_keeps s.completed index below v (is_ready-true g s.completed u v r m))

    -- A task that depends on `index` was not ready, nor is it completed.
    waited : (u : ℕ) → In u (g.incoming index) → is_ready g s.completed u ≢ true
    waited u m r = cc (is_ready-true g s.completed u index r ((laws.mirrored u index).0 m), due.1)

    closed-completes : (u : ℕ) → flag after u ≡ true → is_ready g after u ≡ true
    closed-completes u f = elim (set-true s.completed index below u f) [
      | inl e ↦ rw e (ready_keeps index due.2)
      | inr old ↦ ready_keeps u (i.closed u old)
    ]

    distinct-completes : AreDistinct (completes g s index).in_flight
    distinct-completes =
        AreDistinct-append (remove index s.in_flight) (ready_of g after (g.incoming index))
          (AreDistinct-remove index s.in_flight i.distinct).0
          (AreDistinct-ready_of after (g.incoming index) (simple index))
          (λ u m m'.
            waited u ((In-ready_of after (g.incoming index) u).0 m').0
              ((i.in_flight_are u).0 (In-of_remove index u s.in_flight m)).2)

    still-IsDue : (u : ℕ) → In u (remove index s.in_flight) → IsDue after u
    still-IsDue u old =
        let (l, f, r) = (i.in_flight_are u).0 (In-of_remove index u s.in_flight old) in
        (l, set_other s.completed index below u ne ∙ f, ready_keeps u r)
      where
        ne : u ≢ index
        ne e =
            (AreDistinct-remove index s.in_flight i.distinct).1
              (subst (λ x. In x (remove index s.in_flight)) e old)

    now-IsDue : (u : ℕ) → In u (g.incoming index) → is_ready g after u ≡ true → IsDue after u
    now-IsDue u m r = (
      (laws.in_range u index ((laws.mirrored u index).0 m)).0,
      not_done (Bool-cases (flag after u)),
      r,
    )
      where
        not_done : (flag after u ≡ true) ⊎ (flag after u ≡ false) → flag after u ≡ false
        not_done (inr f) = f
        not_done (inl f) = elim (set-true s.completed index below u f) [
          | inl e ↦ absurd (waited u m (rw e due.2))
          | inr old ↦ absurd (waited u m (i.closed u old))
        ]

    is_due : (u : ℕ) → In u (completes g s index).in_flight → IsDue after u
    is_due u m =
        elim ((In-append u (remove index s.in_flight) (ready_of g after (g.incoming index))).0 m) [
          | inl old ↦ still-IsDue u old
          | inr new ↦
              let (m', r) = (In-ready_of after (g.incoming index) u).0 new in now-IsDue u m' r
        ]

    -- A task that has become ready depends on `index`.
    released :
        (u : ℕ)
        → is_ready g after u ≡ true
        → is_ready g s.completed u ≡ false
        → In u (g.incoming index)
    released u r r0 =
        let (v, m, fv) = is_ready-false g s.completed u r0 in
        elim (set-true s.completed index below v (is_ready-true g after u v r m)) [
          | inl e ↦ (laws.mirrored u index).1 (subst (λ x. In x (g.outgoing u)) e m)
          | inr old ↦ cc (old, fv)
        ]

    is_sent : (u : ℕ) → IsDue after u → In u (completes g s index).in_flight
    is_sent u (l, f, r) =
        let (ne, f') = set-false s.completed index below u f in
        (In-append u (remove index s.in_flight) (ready_of g after (g.incoming index))).1
          (elim (Bool-cases (is_ready g s.completed u)) [
            | inl r0 ↦ inl (In-remove_ne index u s.in_flight ne ((i.in_flight_are u).1 (l, f', r0)))
            | inr r0 ↦ inr ((In-ready_of after (g.incoming index) u).1 (released u r r0, r))
          ])

    -- The invariant after a task that succeeded, where some task is left.
    pub Inv-completes : ((s.count + 1) == length after) ≡ false → Inv (completes g s index)
    Inv-completes more = record {
      size = length-set s.completed index true ∙ i.size;
      counted = omega (arith, trues-set s.completed index below due.1, i.counted);
      unfinished = ground (arith, length-set s.completed index true, i.size, i.unfinished);
      closed = closed-completes;
      distinct = distinct-completes;
      in_flight_are = λ u. (is_due u, is_sent u);
    }

    -- Where none is left, all tasks are completed.
    pub all_completed :
        ((s.count + 1) == length after) ≡ true → (u : ℕ) → u < g.node_count → flag after u ≡ true
    all_completed all u h =
        flag_of_trues after (ground (arith, trues-set s.completed index below due.1, i.counted)) u
          (omega (arith, length-set s.completed index true, i.size))

-- Some flag is not set where fewer are counted.
unset : (bs : List Bool) → trues bs < length bs → (k : ℕ) × (k < length bs) × (flag bs k ≡ false)
unset [] h = absurd (omega arith)
unset (false ∷ bs) h = (0, omega arith, refl)
unset (true ∷ bs) h = let (k, l, f) = unset bs (omega arith) in (suc k, omega arith, f)

-- From a task that is not completed, chains of dependencies lead to one that is due.
IsDue-below :
    (g : Graph) (s : Run)
    → IsGraph g
    → Inv g s
    → {u : ℕ} → IsBuildable g u
    → u < g.node_count
    → flag s.completed u ≡ false
    → (v : ℕ) × IsDue g s.completed v
IsDue-below g s laws i (build {u} f) l h = elim (Bool-cases (is_ready g s.completed u)) [
  | inl r ↦ (u, (l, h, r))
  | inr r ↦
      let (v, m, fv) = is_ready-false g s.completed u r in
      IsDue-below g s laws i (f v m) (laws.in_range u v m).1 fv
]

-- In a graph with no cycle some task is in flight as long as one is left: the loop never waits for a
-- result that nobody will send.
pub Inv-in_flight :
    (g : Graph) (s : Run) → IsGraph g → IsAcyclic g → Inv g s → (u : ℕ) × In u s.in_flight
Inv-in_flight g s laws a i =
    let (k, l, f) = unset s.completed (omega (arith, i.size, i.counted, i.unfinished)) in
    let h : k < g.node_count = omega (arith, i.size) in
    let (v, d) = IsDue-below g s laws i (a k h) h f in (v, (i.in_flight_are v).1 d)
