-- ===== src/Io/MemStream/Copy.antt =====
-- The iterator over the blocks, and `copy`.
use native.Mathlib.Nat.{sub-zero, zero-sub, suc-sub-suc}
use octobuild.Prelude.{
  ℕ, zero, suc, ◌-◌, ◌<◌, ◌≤◌, min, true, List, [], ◌∷◌, ◌++◌, Option, none, some, ltb, Bytes, ◌≡◌,
  refl, sym, ap, ◌∙◌, ◌⊎◌, arith, length, take, concat, length-append, append_assoc, append-nil,
  length-take, Bool-cases, inl, inr, take_all, Result-cases, ltb→lt, List-cases, Result, ok, err,
}
use octobuild.Io.Stream.{IoError, Writer, IsWriter, vec_writer}
use octobuild.Io.MemStream.{
  MemStream, Iter, iter_of, next, copy_loop, copy, into_vec, write_data, new,
}
use octobuild.Io.MemStream.Contents.{
  contents, AreBlocks, IsValid, aligned, partial, length-concat, concat-append, new-IsValid,
  AreBlocks-append,
}
use octobuild.Io.MemStream.Write.{write_data_lem}
use octobuild.Io.MemStream.Slices.{slice-front}

-- What an iterator has still to give.
abbrev pub left : Iter → Bytes
left it = take it.size (concat it.iter)

take-append_sub : (n : ℕ) (xs ys : Bytes) → take n (xs ++ ys) ≡ take n xs ++ take (n - length xs) ys
take-append_sub n [] ys = take_none n ys
  where
    take_none : (n : ℕ) (ys : Bytes) → take n ys ≡ take {A = ℕ} n [] ++ take (n - 0) ys
    take_none zero ys = refl
    take_none (suc n) ys = rw sub-zero
take-append_sub zero (x ∷ xs) ys = rw zero-sub
take-append_sub (suc n) (x ∷ xs) ys = rw suc-sub-suc (ap (◌∷◌ x) (take-append_sub n xs ys))

take-min : (n : ℕ) (xs : Bytes) → take (min n (length xs)) xs ≡ take n xs
take-min n xs = elim (Bool-cases (ltb n (length xs))) [
  | inl less ↦ ap (λ k. take k xs) (ground arith)
  | inr more ↦
      ap (λ k. take k xs) (ground arith)
      ∙ take_all (length xs) xs (omega arith)
      ∙ sym (take_all n xs (ground arith))
]

take-append_split :
    (n : ℕ) (xs ys : Bytes)
    → take n (xs ++ ys) ≡ take (min n (length xs)) xs ++ take (n - min n (length xs)) ys
take-append_split n xs ys =
    let e : n - length xs ≡ n - min n (length xs) = omega arith in
    rw (take-min n xs, ← e) (take-append_sub n xs ys)

module _ (block_size : ℕ) where
  pub record IsValidIter (it : Iter) : Type 0 where
    pub are_blocks : AreBlocks block_size it.iter
    pub backed : it.size ≤ length (concat it.iter)

  pub iter_of-IsValidIter : (s : MemStream) → IsValid block_size s → IsValidIter (iter_of s)
  iter_of-IsValidIter s (aligned full hf eb es) = record {
    are_blocks = rw eb hf;
    backed = rw (eb, es) (omega (arith, length-concat block_size full hf));
  }
  iter_of-IsValidIter s (partial full last used hf hl hu hs eb es) = record {
    are_blocks = rw eb (AreBlocks-append block_size full last hf hl);
    backed =
        rw (eb, es, concat-append full last)
          (omega (arith, length-append (concat full) last, length-concat block_size full hf));
  }

module _ (block_size : ℕ) (pos : 0 < block_size) where
  -- What `next` gives: nothing at the end, and else some bytes off the front.
  pub data Next (it : Iter) : Type 0 where
    ended : next it ≡ some none → left it ≡ [] → it.size ≡ 0 → Next it
    gave :
        (b : Bytes) (it' : Iter)
        → next it ≡ some (some (b, it'))
        → left it ≡ b ++ left it'
        → 0 < length b
        → length it.iter ≡ suc (length it'.iter)
        → IsValidIter block_size it'
        → Next it

  Next-gave :
      (it : Iter) (block : Bytes) (blocks : List Bytes)
      → ltb 0 it.size ≡ true
      → it.iter ≡ block ∷ blocks
      → IsValidIter block_size it
      → Next it
  unfolding next
  Next-gave it block blocks more e v =
      gave (take n block) (record { size = it.size - n; iter = blocks })
        (rw (more, e, next) (rw (slice-front n block (omega arith))))
        (rw e (take-append_split it.size block blocks'))
        (omega (arith, length-take n block, shape.0, ltb→lt 0 it.size more)) (rw e)
        (record {
          are_blocks = shape.1;
          backed =
              omega (arith, v.backed, ap (λ bs. length (concat bs)) e, length-append block blocks');
        })
    where
      n : ℕ
      n = min it.size (length block)

      blocks' : Bytes
      blocks' = concat blocks

      shape : AreBlocks block_size (block ∷ blocks)
      shape = rw e at v.are_blocks

  Next-ended : (it : Iter) → it.size ≡ 0 → Next it
  unfolding next
  Next-ended it e = ended (rw (e, next)) (rw e) e

  pub next_lem : (it : Iter) → IsValidIter block_size it → Next it
  next_lem it v = elim (Bool-cases (ltb 0 it.size)) [
    | inr done ↦ Next-ended it (ground arith)
    | inl more ↦ elim (List-cases it.iter) [
      | inl e ↦
          absurd (omega (arith, v.backed, ltb→lt 0 it.size more, ap (λ bs. length (concat bs)) e))
      | inr (block, blocks, e) ↦ Next-gave it block blocks more e v
    ]
  ]

  module _ {W : Type 0} (r : Writer W) (written : W → Bytes) (laws : IsWriter r written) where
    -- How `write_all` failed: the bytes before are written, and the block is a piece of what is left.
    pub record Failed (b : Bytes) (w : W) (e : IoError) : Type 0 where
      pub at : W
      pub before : Bytes
      pub block : Bytes
      pub after : Bytes
      pub fails : r.write_all at block ≡ err e
      pub is_written : written at ≡ written w ++ before
      pub splits : b ≡ before ++ (block ++ after)

    -- What `copy` may end in: everything is written, or the writer failed.
    abbrev pub Copied : Bytes → W → Result IoError W → Type 0
    Copied b w (ok v) = written v ≡ written w ++ b
    Copied b w (err e) = Failed b w e

    abbrev Ends : ℕ → Iter → W → Type 0
    Ends fuel it w =
        (m : Result IoError W) × (copy_loop r fuel it w ≡ some m) × Copied (left it) w m

    Copied-append :
        (w v : W) (b c d : Bytes) (m : Result IoError W)
        → d ≡ b ++ c
        → written v ≡ written w ++ b
        → Copied c v m
        → Copied d w m
    Copied-append w v b c d (ok u) ed ev h = h ∙ rw (ev, ed) (append_assoc (written w) b c)
    Copied-append w v b c d (err e) ed ev h = record {
      at = h.at;
      before = b ++ h.before;
      block = h.block;
      after = h.after;
      fails = h.fails;
      is_written = h.is_written ∙ rw (ev) (append_assoc (written w) b h.before);
      splits = ed ∙ ap (λ x. b ++ x) h.splits ∙ sym (append_assoc b h.before (h.block ++ h.after));
    }

    copy_round :
        (fuel : ℕ) (it it' : Iter) (w : W) (b : Bytes)
        → next it ≡ some (some (b, it'))
        → left it ≡ b ++ left it'
        → ((v : W) → Ends fuel it' v)
        → Ends (suc fuel) it w
    unfolding copy_loop
    copy_round fuel it it' w b e el ih = elim (Result-cases (r.write_all w b)) [
      | inl (v, ew) ↦
          let (m, em, c) = ih v in
          (
            m,
            rw (e, ew, copy_loop) em,
            Copied-append w v b (left it') (left it) m el (laws.appends w b ew) c,
          )
      | inr (x, ew) ↦ (
        err x,
        rw (e, ew, copy_loop),
        record {
          at = w;
          before = [];
          block = b;
          after = left it';
          fails = ew;
          is_written = sym (append-nil (written w));
          splits = el;
        },
      )
    ]

    copy_loop_lem :
        (fuel : ℕ) (it : Iter) (w : W)
        → IsValidIter block_size it
        → length it.iter < fuel
        → Ends fuel it w
    copy_loop_lem zero it w v h = absurd (omega arith)
    copy_loop_lem (suc fuel) it w v h = elim (next_lem it v) [
      | ended e el _ ↦
          (ok w, unfold copy_loop in rw (e, copy_loop), rw el (sym (append-nil (written w))))
      | gave b it' e el _ shorter v' ↦
          copy_round fuel it it' w b e el (λ u. copy_loop_lem fuel it' u v' (omega arith))
    ]

    -- What `copy` of a stream does.
    abbrev pub Copies : MemStream → W → Type 0
    Copies s w =
        ((v : W) × (copy r s w ≡ some (ok (s.size, v))) × (written v ≡ written w ++ contents s))
        ⊎ ((e : IoError) × (copy r s w ≡ some (err e)) × Failed (contents s) w e)

    -- `copy` of a valid stream ends and never panics. It returns the length of the stream, and the
    -- writer then holds the contents behind what it held; or `write_all` failed on some piece of the
    -- contents, with those before it written, and `copy` returns that error.
    pub copy_lem : (s : MemStream) (w : W) → IsValid block_size s → Copies s w
    unfolding copy
    copy_lem s w h = pick (
        copy_loop_lem (suc (length s.blocks)) (iter_of s) w (iter_of-IsValidIter block_size s h)
          (omega arith))
      where
        pick : Ends (suc (length s.blocks)) (iter_of s) w → Copies s w
        pick (ok v, e, c) = inl (v, rw e, c)
        pick (err x, e, c) = inr (x, rw e, c)

pub vec_writer-IsWriter : IsWriter vec_writer (λ w. w)
vec_writer-IsWriter = record { appends = λ w b e. cc }

-- `write` of one piece after the other.
abbrev pub write_pieces : ℕ → Bytes → MemStream → List Bytes → Option MemStream
write_pieces block_size uninit s [] = some s
write_pieces block_size uninit s (p ∷ ps) = elim (write_data block_size uninit s p) [
  | none ↦ none
  | some (t, _) ↦ write_pieces block_size uninit t ps
]

module _ (block_size : ℕ) (pos : 0 < block_size) where
  pub into_vec_lem : (s : MemStream) → IsValid block_size s → into_vec s ≡ some (contents s)
  unfolding into_vec
  into_vec_lem s h = elim (copy_lem block_size pos vec_writer (λ w. w) vec_writer-IsWriter s [] h) [
    | inl (v, e, c) ↦ rw (e, into_vec) (ap some c)
    | inr (x, e, failed) ↦ cc (failed.fails)
  ]

module _ (block_size : ℕ) (uninit : Bytes) (pos : 0 < block_size)
    (room : length uninit ≡ block_size) where
  write_pieces_lem :
      (ps : List Bytes) (s : MemStream)
      → IsValid block_size s
      → (t : MemStream) × (write_pieces block_size uninit s ps ≡ some t)
        × IsValid block_size t
        × (contents t ≡ contents s ++ concat ps)
  write_pieces_lem [] s v = (s, refl, v, sym (append-nil (contents s)))
  write_pieces_lem (p ∷ ps) s v =
      let a = write_data_lem block_size uninit pos room s p v in
      let (t, e, v', h) = write_pieces_lem ps a.stream a.valid in
      (
        t,
        rw (a.returned, write_pieces) e,
        v',
        h ∙ rw a.held (append_assoc (contents s) p (concat ps)),
      )

  -- Whatever pieces are written to a new stream, each of any size, every write ends and none panics,
  -- no slice is out of range, and the conversion to a vector returns all the pieces in order.
  pub into_vec-write :
      (ps : List Bytes)
      → (t : MemStream) × (write_pieces block_size uninit new ps ≡ some t)
        × (into_vec t ≡ some (concat ps))
  into_vec-write ps =
      let (t, e, v, h) = write_pieces_lem ps new (new-IsValid block_size) in
      (t, e, into_vec_lem block_size pos t v ∙ ap some h)
