-- ===== src/Io/MemStream/Write.antt =====
-- `write_data` appends.
use native.Mathlib.Nat.{zero-add, suc-add}
use octobuild.Prelude.{
  ℕ, zero, suc, ◌+◌, ◌-◌, ◌*◌, ◌%◌, ◌<◌, ◌≤◌, min, true, List, [], ◌∷◌, ◌++◌, Option, some, ◌==◌,
  if◌then◌else◌, ltb, Bytes, ◌≡◌, refl, sym, ap, ◌∙◌, arith, length, take, drop, concat,
  length-append, append_assoc, append-nil, length-take, length-drop, Bool-cases, inl, inr, take_all,
  drop_all, take-append-drop,
}
use octobuild.Io.MemStream.{
  MemStream, put, write_slice, update_back, write_round, write_loop, write_data,
}
use octobuild.Io.MemStream.Slices.{slice_len-some, slice-some, memcpy-some, length-put, take-put}
use octobuild.Io.MemStream.Contents.{
  contents, AreBlocks, IsValid, aligned, partial, length-concat, AreBlocks-append, offset_mod,
  concat-append, take-add-append,
}

update_back-append :
    (f : Bytes → Option Bytes) (bs : List Bytes) (b b' : Bytes)
    → f b ≡ some b'
    → update_back f (bs ++ b ∷ []) ≡ some (bs ++ b' ∷ [])
unfolding update_back
update_back-append f [] b b' e = rw e
update_back-append f (c ∷ []) b b' e = rw e
update_back-append f (c ∷ d ∷ bs) b b' e = rw (update_back-append f (d ∷ bs) b b' e)

pub drop-add : (o k : ℕ) (xs : Bytes) → drop (o + k) xs ≡ drop k (drop o xs)
drop-add zero k xs = rw zero-add
drop-add (suc o) k [] = rw suc-add (sym (drop-nil k))
  where
    drop-nil : (n : ℕ) → drop {A = ℕ} n [] ≡ []
    drop-nil n = drop_all n [] (omega arith)
drop-add (suc o) k (x ∷ xs) = rw suc-add (drop-add o k xs)

-- A stretch of a list and what follows it.
stretch : (o n : ℕ) (xs : Bytes) → o ≤ n → take (n - o) (drop o xs) ++ drop n xs ≡ drop o xs
stretch o n xs h =
    let e : n ≡ o + (n - o) = omega arith in
    ap (λ w. take (n - o) (drop o xs) ++ w) (ap (λ m. drop m xs) e ∙ drop-add o (n - o) xs)
    ∙ take-append-drop (n - o) (drop o xs)

grow : (n k used m : ℕ) → used + m ≡ k → n * k + used + m ≡ (n + 1) * k
grow n k used m h = omega arith

module _ (block_size : ℕ) where
  -- A stream whose last block is filled with `src` from `used` on.
  fill :
      (s : MemStream) (full : List Bytes) (block src : Bytes) (used : ℕ)
      → AreBlocks block_size full
      → length block ≡ block_size
      → 0 < length src
      → used + length src ≤ block_size
      → s.blocks ≡ full ++ put block used src ∷ []
      → s.size ≡ length full * block_size + used + length src
      → IsValid block_size s × (contents s ≡ (concat full ++ take used block) ++ src)
  fill s full block src used hf hb pos fits eb es = (valid, held)
    where
      b' : Bytes
      b' = put block used src

      len_b' : length b' ≡ block_size
      len_b' = length-put block src used (omega arith) ∙ hb

      size_lem :
          length full * block_size + used + length src
          ≡ length full * block_size + (used + length src)
      size_lem = omega arith

      valid : IsValid block_size s
      valid = elim (Bool-cases (ltb (used + length src) block_size)) [
        | inl less ↦
            partial full b' (used + length src) hf len_b' (omega arith) (ground arith) eb
              (es ∙ size_lem)
        | inr full_now ↦
            aligned (full ++ b' ∷ []) (AreBlocks-append block_size full b' hf len_b') eb (
              es
              ∙ rw (length-append full (b' ∷ []))
                  (grow (length full) block_size used (length src) (ground arith)))
      ]

      held : contents s ≡ (concat full ++ take used block) ++ src
      held =
          rw (eb, es, size_lem, concat-append full b')
            (take-add-append (length full * block_size) (used + length src) (concat full) b'
                (length-concat block_size full hf)
              ∙ ap (λ w. concat full ++ w) (take-put block src used (omega arith))
              ∙ sym (append_assoc (concat full) (take used block) src))

module _ (block_size : ℕ) (uninit : Bytes) (pos : 0 < block_size)
    (room : length uninit ≡ block_size) where
  -- What one round does: it appends the next `next - src_offset` bytes of `buf`, one at least.
  record Copied (buf : Bytes) (s : MemStream) (src_offset : ℕ) : Type 0 where
    next_stream : MemStream
    next_offset : ℕ
    returned : write_round block_size uninit buf s src_offset ≡ some (next_stream, next_offset)
    valid : IsValid block_size next_stream
    advances : src_offset < next_offset
    within : next_offset ≤ length buf
    grows : next_stream.size ≡ s.size + (next_offset - src_offset)
    held :
        contents next_stream ≡ contents s ++ take (next_offset - src_offset) (drop src_offset buf)

  -- The round writes into `base`, of which `used` bytes are taken.
  round :
      (buf : Bytes) (s : MemStream) (src_offset : ℕ) (full : List Bytes) (base : Bytes) (used : ℕ)
      → src_offset < length buf
      → AreBlocks block_size full
      → length base ≡ block_size
      → used < block_size
      → s.size ≡ length full * block_size + used
      → (if used == 0 then s.blocks ++ uninit ∷ [] else s.blocks) ≡ full ++ base ∷ []
      → contents s ≡ concat full ++ take used base
      → Copied buf s src_offset
  round buf s src_offset full base used h hf hb hs es eb ec = record {
    next_stream = t;
    next_offset = src_offset + copy_size;
    returned = returned;
    valid = filled.0;
    advances = omega arith;
    within = omega arith;
    grows = omega arith;
    held = rw (back, ec) filled.1;
  }
    where
      copy_size : ℕ
      copy_size = min (length buf - src_offset) (block_size - used)

      src : Bytes
      src = take copy_size (drop src_offset buf)

      len_src : length src ≡ copy_size
      len_src =
          omega (arith, length-take copy_size (drop src_offset buf), length-drop src_offset buf)

      t : MemStream
      t = record { size = s.size + copy_size; blocks = full ++ put base used src ∷ [] }

      back : src_offset + copy_size - src_offset ≡ copy_size
      back = omega arith

      filled : IsValid block_size t × (contents t ≡ (concat full ++ take used base) ++ src)
      filled =
          fill block_size t full base src used hf hb (omega (arith, len_src))
            (omega (arith, len_src)) refl (omega (arith, len_src))

      dst : s.size % block_size ≡ used
      dst = rw es (offset_mod block_size (length full) used hs)

      copied : write_slice buf src_offset used copy_size base ≡ some (put base used src)
      copied =
          let there : length src ≡ used + copy_size - used = omega (arith, len_src) in
          unfold write_slice in
          rw (
            slice-some src_offset copy_size buf (omega arith),
            slice_len-some used (used + copy_size) (length base) (omega arith) (omega arith),
            memcpy-some src (used + copy_size - used) there (omega (arith, len_src)),
          )

      returned : write_round block_size uninit buf s src_offset ≡ some (t, src_offset + copy_size)
      returned =
          unfold write_round in
          rw (
            dst,
            eb,
            update_back-append (write_slice buf src_offset used copy_size) full base
                (put base used src) copied,
          )

  contents-aligned :
      (s : MemStream) (full : List Bytes)
      → AreBlocks block_size full
      → s.blocks ≡ full
      → s.size ≡ length full * block_size
      → contents s ≡ concat full
  contents-aligned s full hf eb es =
      rw (eb, es) (take_all _ (concat full) (omega (arith, length-concat block_size full hf)))

  contents-partial :
      (s : MemStream) (full : List Bytes) (last : Bytes) (used : ℕ)
      → AreBlocks block_size full
      → s.blocks ≡ full ++ last ∷ []
      → s.size ≡ length full * block_size + used
      → contents s ≡ concat full ++ take used last
  contents-partial s full last used hf eb es =
      rw (eb, es, concat-append full last)
        (take-add-append _ used (concat full) last (length-concat block_size full hf))

  write_round_lem :
      (buf : Bytes) (s : MemStream) (src_offset : ℕ)
      → src_offset < length buf
      → IsValid block_size s
      → Copied buf s src_offset
  write_round_lem buf s src_offset h (aligned full hf eb es) =
      round buf s src_offset full uninit 0 h hf room pos (omega arith) (rw eb)
        (contents-aligned s full hf eb es ∙ sym (append-nil _))
  write_round_lem buf s src_offset h (partial full last used hf hl hu hs eb es) =
      round buf s src_offset full last used h hf hl hs es (ground arith)
        (contents-partial s full last used hf eb es)

  -- The loop from any offset.
  record Written (fuel : ℕ) (buf : Bytes) (s : MemStream) (src_offset : ℕ) : Type 0 where
    last_stream : MemStream
    returned : write_loop block_size uninit fuel buf s src_offset ≡ some (last_stream, length buf)
    valid : IsValid block_size last_stream
    grows : last_stream.size ≡ s.size + (length buf - src_offset)
    held : contents last_stream ≡ contents s ++ drop src_offset buf

  write_ends :
      (fuel : ℕ) (buf : Bytes) (s : MemStream) (src_offset : ℕ)
      → src_offset ≡ length buf
      → write_loop block_size uninit fuel buf s src_offset ≡ some (s, src_offset)
      → IsValid block_size s
      → Written fuel buf s src_offset
  write_ends fuel buf s src_offset e w v = record {
    last_stream = s;
    returned = w ∙ ap (λ o. some (s, o)) e;
    valid = v;
    grows = omega arith;
    held = sym (ap (λ w. contents s ++ w) (drop_all src_offset buf (omega arith)) ∙ append-nil _);
  }

  write_again :
      (fuel : ℕ) (buf : Bytes) (s : MemStream) (src_offset : ℕ)
      → ltb src_offset (length buf) ≡ true
      → (c : Copied buf s src_offset) → Written fuel buf c.next_stream c.next_offset
      → Written (suc fuel) buf s src_offset
  unfolding write_loop
  write_again fuel buf s src_offset more c w = record {
    last_stream = w.last_stream;
    returned = rw (more, c.returned, write_loop) w.returned;
    valid = w.valid;
    grows = omega (arith, c.grows, w.grows, c.advances, c.within);
    held =
        w.held
        ∙ rw (c.held, append_assoc)
            (ap (λ w. contents s ++ w)
              (stretch src_offset c.next_offset buf (omega (arith, c.advances))));
  }

  write_loop_lem :
      (fuel : ℕ) (buf : Bytes) (s : MemStream) (src_offset : ℕ)
      → src_offset ≤ length buf
      → length buf - src_offset < fuel
      → IsValid block_size s
      → Written fuel buf s src_offset
  write_loop_lem zero buf s src_offset h hf v = absurd (omega arith)
  write_loop_lem (suc fuel) buf s src_offset h hf v =
      elim (Bool-cases (ltb src_offset (length buf))) [
        | inl more ↦
            let c = write_round_lem buf s src_offset (ground arith) v in
            write_again fuel buf s src_offset more c
              (write_loop_lem fuel buf c.next_stream c.next_offset c.within (ground arith) c.valid)
        | inr done ↦
            write_ends (suc fuel) buf s src_offset (ground arith)
              (unfold write_loop in rw (done, write_loop)) v
      ]

  -- What `write_data` does to a valid stream.
  pub record Appended (s : MemStream) (buf : Bytes) : Type 0 where
    pub stream : MemStream
    pub returned : write_data block_size uninit s buf ≡ some (stream, length buf)
    pub valid : IsValid block_size stream
    pub grows : stream.size ≡ s.size + length buf
    pub held : contents stream ≡ contents s ++ buf

  -- `write_data` ends and never panics, by an `unwrap`, a slice out of range or the assertion of
  -- `memcpy`; it takes the whole buffer, keeps the stream valid, and leaves it holding what it held and
  -- the buffer behind it.
  pub write_data_lem : (s : MemStream) (buf : Bytes) → IsValid block_size s → Appended s buf
  write_data_lem s buf v =
      let w = write_loop_lem (suc (length buf)) buf s 0 (omega arith) (omega arith) v in
      record {
        stream = w.last_stream;
        returned = unfold write_data in w.returned;
        valid = w.valid;
        grows = omega (arith, w.grows);
        held = w.held;
      }
