-- ===== src/Io/MemStream/Read.antt =====
-- Reading a stream through `MemReader`, which keeps the promises of `Read`.
use mathlib.Core.Logic.{⊎_elim}
use mathlib.Core.Path.{subst, ap₂}
use octobuild.Prelude.{
  ℕ, zero, suc, ◌+◌, ◌-◌, ◌<◌, ◌≤◌, min, true, false, [], ◌∷◌, ◌++◌, Option, none, some, ◌==◌, ltb,
  Bytes, ◌≡◌, refl, ◌≢◌, sym, ap, ◌∙◌, ◌⊎◌, arith, length, take, drop, take-append, drop-append,
  length-append, append_assoc, append-nil, length-take, length-drop, Bool-cases, inl, inr, take_all,
  take-append-drop, drop_all, Result, ok, ==_iff,
}
use octobuild.Io.Stream.{IoError, IsReader, NeverFails}
use octobuild.Io.MemStream.{
  MemStream, MemReader, iter_of, reader, next_block, read_slice, read_loop, read_fuel, read,
  mem_reader,
}
use octobuild.Io.MemStream.Contents.{contents, IsValid}
use octobuild.Io.MemStream.Write.{drop-add}
use octobuild.Io.MemStream.Slices.{slice_len-some, slice-some, memcpy-some}
use octobuild.Io.MemStream.Copy.{left, IsValidIter, iter_of-IsValidIter, ended, gave, next_lem}

abbrev in_block : ℕ → Option Bytes → Bytes
in_block offset none = []
in_block offset (some block) = drop offset block

-- The bytes that a reader has still to give.
abbrev pub rest : MemReader → Bytes
rest r = elim r.last [ none ↦ [] | some block ↦ drop r.offset block ++ left r.iter ]

abbrev weight : Option Bytes → ℕ
weight none = 0
weight (some _) = 1

weight-le : (o : Option Bytes) → weight o ≤ 1
weight-le none = omega arith
weight-le (some _) = omega arith

less_work : (n need k fuel : ℕ) → 0 < n → n ≤ need → need + k < suc fuel → need - n + k < fuel
less_work n need k fuel hn le h = omega arith

module _ (block_size : ℕ) (pos : 0 < block_size) where
  pub data IsValidReader (r : MemReader) : Type 0 where
    at_end : r.last ≡ none → IsValidReader r
    at_block :
        (block : Bytes)
        → r.last ≡ some block
        → r.offset ≤ length block
        → IsValidIter block_size r.iter
        → IsValidReader r

  -- `reader` of a valid stream: it starts at the front.
  pub reader_lem :
      (s : MemStream)
      → IsValid block_size s
      → (r : MemReader) × (reader s ≡ some r) × IsValidReader r × (rest r ≡ contents s)
  unfolding reader
  reader_lem s v = elim (next_lem block_size pos (iter_of s) (iter_of-IsValidIter block_size s v)) [
    | ended e el _ ↦
        (record { offset = 0; iter = iter_of s; last = none }, rw (e, reader), at_end refl, sym el)
    | gave b it e el _ _ v' ↦ (
      record { offset = 0; iter = it; last = some b },
      rw (e, reader),
      at_block b refl (omega arith) v',
      sym el,
    )
  ]

  -- The work that a loop has before it.
  abbrev work : MemReader → ℕ → ℕ
  work r need = need + (length r.iter.iter + weight r.last)

  -- What the loop returns: bytes off the front, and all that there is room for.
  record Got (r : MemReader) (need : ℕ) (m : Bytes × MemReader) : Type 0 where
    valid : IsValidReader m.1
    splits : rest r ≡ m.0 ++ rest m.1
    fits : length m.0 ≤ need
    fills : (length m.0 ≡ need) ⊎ (rest m.1 ≡ [])

  abbrev Loops : ℕ → MemReader → ℕ → Type 0
  Loops fuel r need = (m : Bytes × MemReader) × (read_loop fuel r need ≡ some m) × Got r need m

  rest_used :
      (r : MemReader) (block : Bytes)
      → r.last ≡ some block
      → r.offset ≡ length block
      → rest r ≡ left r.iter
  rest_used r block el eo =
      rw el (ap (λ w. w ++ left r.iter) (drop_all r.offset block (omega arith)))

  next_block_lem :
      (r : MemReader) (block : Bytes)
      → r.last ≡ some block
      → r.offset ≡ length block
      → IsValidIter block_size r.iter
      → (r' : MemReader) × (next_block r ≡ some r')
        × IsValidReader r'
        × (rest r ≡ rest r')
        × (work r' 0 < work r 0)
  unfolding next_block
  next_block_lem r block el eo v = elim (next_lem block_size pos r.iter v) [
    | ended e empty _ ↦ (
      record r { offset = 0; last = none },
      rw (e, next_block),
      at_end refl,
      rest_used r block el eo ∙ empty,
      rw el (omega arith),
    )
    | gave b it e front _ shorter v' ↦ (
      record { offset = 0; iter = it; last = some b },
      rw (e, next_block),
      at_block b refl (omega arith) v',
      rest_used r block el eo ∙ front,
      rw el (omega arith),
    )
  ]

  -- `copied` bytes of the block, and then what a later round gets.
  rest_part :
      (r : MemReader) (block : Bytes) (n : ℕ)
      → r.last ≡ some block
      → rest r ≡ take n (drop r.offset block) ++ rest (record r { offset = r.offset + n })
  rest_part r block n el = rw el (
      ap (λ w. w ++ left r.iter)
        (sym (take-append-drop n (drop r.offset block))
          ∙ ap (λ w. take n (drop r.offset block) ++ w) (sym (drop-add r.offset n block)))
      ∙ append_assoc (take n (drop r.offset block)) (drop (r.offset + n) block) (left r.iter))

  read_part :
      (fuel : ℕ) (r : MemReader) (need : ℕ) (block : Bytes)
      → ltb 0 need ≡ true
      → r.last ≡ some block
      → (r.offset == length block) ≡ false
      → r.offset ≤ length block
      → Loops fuel
          (record r { offset = r.offset + min need (length block - r.offset) })
          (need - min need (length block - r.offset))
      → Loops (suc fuel) r need
  unfolding read_loop read_slice
  read_part fuel r need block more el eo le (m, e, g) = (
    (part ++ m.0, m.1),
    rw (more, el, eo, read_loop) (rw (copied, e)),
    record {
      valid = g.valid;
      splits =
          rest_part r block n el
          ∙ ap (λ w. part ++ w) g.splits
          ∙ sym (append_assoc part m.0 (rest m.1));
      fits = omega (arith, length-append part m.0, len_part, g.fits);
      fills = ⊎_elim (λ f. inl (omega (arith, length-append part m.0, len_part, f))) inr g.fills;
    },
  )
    where
      n : ℕ
      n = min need (length block - r.offset)

      part : Bytes
      part = take n (drop r.offset block)

      len_part : length part ≡ n
      len_part = omega (arith, length-take n (drop r.offset block), length-drop r.offset block)

      n_pos : 0 < n
      n_pos =
          let some_ : 0 < need = ground arith in
          let apart : r.offset ≢ length block = ground arith in omega arith

      copied : read_slice block r.offset n need ≡ some part
      copied =
          let whole : n - 0 ≡ n = omega arith in
          unfold read_slice in
          rw (
            slice-some r.offset n block (omega arith),
            slice_len-some 0 n need (omega arith) (omega arith),
            whole,
            memcpy-some part n len_part n_pos,
          )

  nothing :
      (fuel : ℕ) (r : MemReader) (need : ℕ)
      → IsValidReader r
      → read_loop fuel r need ≡ some ([], r)
      → (need ≡ 0) ⊎ (rest r ≡ [])
      → Loops fuel r need
  nothing fuel r need v e d = (
    ([], r),
    e,
    record {
      valid = v;
      splits = refl;
      fits = omega arith;
      fills = ⊎_elim (λ z. inl (sym z)) inr d;
    },
  )

  read_next :
      (fuel : ℕ) (r r' : MemReader) (need : ℕ) (block : Bytes)
      → ltb 0 need ≡ true
      → r.last ≡ some block
      → (r.offset == length block) ≡ true
      → next_block r ≡ some r'
      → rest r ≡ rest r'
      → Loops fuel r' need
      → Loops (suc fuel) r need
  unfolding read_loop
  read_next fuel r r' need block more el eo en er (m, e, g) = (
    m,
    rw (more, el, eo, en, read_loop) e,
    record { valid = g.valid; splits = er ∙ g.splits; fits = g.fits; fills = g.fills },
  )

  read_loop_lem :
      (fuel : ℕ) (r : MemReader) (need : ℕ)
      → IsValidReader r
      → work r need < fuel
      → Loops fuel r need
  read_loop_lem zero r need v h = absurd (omega arith)
  read_loop_lem (suc fuel) r need (at_end el) h =
      nothing (suc fuel) r need (at_end el) (stopped (Bool-cases (ltb 0 need))) (inr (rw el))
    where
      stopped :
          (ltb 0 need ≡ true) ⊎ (ltb 0 need ≡ false) → read_loop (suc fuel) r need ≡ some ([], r)
      stopped (inl more) = unfold read_loop in simp (more, el, read_loop)
      stopped (inr done) = unfold read_loop in rw (done, read_loop)
  read_loop_lem (suc fuel) r need (at_block block el le v) h = elim (Bool-cases (ltb 0 need)) [
    | inr done ↦
        nothing (suc fuel) r need (at_block block el le v)
          (unfold read_loop in rw (done, read_loop)) (inl (ground arith))
    | inl more ↦ elim (Bool-cases (r.offset == length block)) [
      | inl used ↦
          let (r', en, v', er, less) =
            next_block_lem r block el ((==_iff r.offset (length block)).0 used) v in
          read_next fuel r r' need block more el used en er
            (read_loop_lem fuel r' need v' (omega arith))
      | inr free ↦
          let n = min need (length block - r.offset) in
          read_part fuel r need block more el free le (
            read_loop_lem fuel (record r { offset = r.offset + n }) (need - n)
              (at_block block el (omega arith) v)
              (less_work n need (length r.iter.iter + weight r.last) fuel (ground arith)
                (omega arith) h))
    ]
  ]

  -- `read` of a valid reader ends and never panics, by an `unwrap`, a slice out of range or the
  -- assertion of `memcpy`; it returns the next bytes, as many as there is room for
  -- or as there are.
  pub read_lem :
      (r : MemReader) (n : ℕ)
      → IsValidReader r
      → (b : Bytes) × (r' : MemReader) × (read r n ≡ some (b, r'))
        × IsValidReader r'
        × (b ≡ take n (rest r))
        × (rest r' ≡ drop n (rest r))
  read_lem r n v =
      let (m, e, g) = read_loop_lem (read_fuel r n) r n v (omega (arith, weight-le r.last)) in
      (m.0, m.1, unfold read in e, g.valid, (front m g).0, (front m g).1)
    where
      front :
          (m : Bytes × MemReader)
          → Got r n m
          → (m.0 ≡ take n (rest r)) × (rest m.1 ≡ drop n (rest r))
      front m g = elim g.fills [
        | inl full ↦ (
          sym (rw g.splits (take-append n m.0 (rest m.1) full)),
          sym (rw g.splits (drop-append n m.0 (rest m.1) full)),
        )
        | inr done ↦
            let all : rest r ≡ m.0 = g.splits ∙ ap (λ w. m.0 ++ w) done ∙ append-nil m.0 in
            (sym (rw all (take_all n m.0 g.fits)), done ∙ sym (rw all (drop_all n m.0 g.fits)))
      ]

  reads :
      (r t : MemReader) (n : ℕ) (b : Bytes)
      → IsValidReader r
      → mem_reader.read r n ≡ ok (b, t)
      → IsValidReader t × (b ≡ take n (rest r)) × (rest t ≡ drop n (rest r))
  unfolding mem_reader
  reads r t n b v e =
      let (b', r', e', v', eb, er) = read_lem r n v in
      let same : Path (Result IoError (Bytes × MemReader)) (ok (b', r')) (ok (b, t)) =
        sym (rw (e', mem_reader) refl) ∙ e in
      let eb' : b' ≡ b = cc in
      let et' : r' ≡ t = cc in (subst IsValidReader et' v', sym eb' ∙ eb, ap rest (sym et') ∙ er)

  take-eq-nil : (n : ℕ) (xs : Bytes) → [] ≡ take n xs → (n ≡ 0) ⊎ (xs ≡ [])
  take-eq-nil zero xs e = inl refl
  take-eq-nil (suc n) [] e = inr refl
  take-eq-nil (suc n) (x ∷ xs) e = cc

  -- `MemReader` keeps the promises of `Read`.
  pub mem_reader-IsReader : IsReader mem_reader IsValidReader rest
  mem_reader-IsReader = record {
    keeps = λ s n v e. (reads s _ n _ v e).0;
    splits = λ s n {b} {t} v e.
        let (_, eb, et) = reads s t n b v e in
        sym (take-append-drop n (rest s)) ∙ ap₂ (λ x y. x ++ y) (sym eb) (sym et);
    fits = λ s n {b} {t} v e.
        let (_, eb, et) = reads s t n b v e in omega (arith, ap length eb, length-take n (rest s));
    stops = λ s n {t} v e. take-eq-nil n (rest s) (reads s t n [] v e).1;
  }

  pub mem_reader-NeverFails : NeverFails mem_reader IsValidReader
  unfolding mem_reader
  mem_reader-NeverFails r n v =
      let (b, r', e, _, _, _) = read_lem r n v in (b, r', rw (e, mem_reader))
