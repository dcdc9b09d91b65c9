-- ===== src/Io/MemStream/Contents.antt =====
-- What a stream holds, and the shape that it keeps: all blocks have the block's size, and only the
-- last may be filled in part.
use native.Mathlib.Nat.{zero-add, suc-add, add_comm, add-mul-mod_self_right, mod-eq_of_lt}
use octobuild.Prelude.{
  ℕ, zero, suc, ◌+◌, ◌*◌, ◌%◌, ◌<◌, List, [], ◌∷◌, ◌++◌, Bytes, ◌≡◌, refl, sym, ap, arith, length,
  take, concat, length-append, append_assoc, append-nil,
}
use octobuild.Io.MemStream.{MemStream, new}

abbrev pub contents : MemStream → Bytes
contents s = take s.size (concat s.blocks)

module _ (block_size : ℕ) where
  abbrev pub AreBlocks : List Bytes → Type 0
  AreBlocks [] = Unit
  AreBlocks (b ∷ bs) = (length b ≡ block_size) × AreBlocks bs

  pub data IsValid (s : MemStream) : Type 0 where
    aligned :
        (full : List Bytes)
        → AreBlocks full
        → s.blocks ≡ full
        → s.size ≡ length full * block_size
        → IsValid s
    partial :
        (full : List Bytes) (last : Bytes) (used : ℕ)
        → AreBlocks full
        → length last ≡ block_size
        → 0 < used
        → used < block_size
        → s.blocks ≡ full ++ last ∷ []
        → s.size ≡ length full * block_size + used
        → IsValid s

  pub new-IsValid : IsValid new
  new-IsValid = aligned [] tt refl (omega arith)

  pub length-concat :
      (full : List Bytes) → AreBlocks full → length (concat full) ≡ length full * block_size
  length-concat [] h = omega arith
  length-concat (b ∷ bs) h = grind (arith, length-append b (concat bs), length-concat bs h.1)

  pub AreBlocks-append :
      (full : List Bytes) (b : Bytes)
      → AreBlocks full
      → length b ≡ block_size
      → AreBlocks (full ++ b ∷ [])
  AreBlocks-append [] b h e = (e, tt)
  AreBlocks-append (c ∷ cs) b h e = (h.0, AreBlocks-append cs b h.1 e)

  pub offset_mod : (k used : ℕ) → used < block_size → (k * block_size + used) % block_size ≡ used
  offset_mod k used h = rw (add_comm, add-mul-mod_self_right used k block_size) (mod-eq_of_lt h)

pub concat-append {ℓ} :
    {A : Type ℓ} (xs : List (List A)) (b : List A) → concat (xs ++ b ∷ []) ≡ concat xs ++ b
concat-append [] b = append-nil b
concat-append (x ∷ xs) b = rw (concat-append xs b) (sym (append_assoc x (concat xs) b))

pub take-add-append {ℓ} :
    {A : Type ℓ} (n m : ℕ) (xs ys : List A)
    → length xs ≡ n
    → take (n + m) (xs ++ ys) ≡ xs ++ take m ys
take-add-append zero m [] ys h = rw zero-add
take-add-append zero m (x ∷ xs) ys h = absurd (omega arith)
take-add-append (suc n) m [] ys h = absurd (omega arith)
take-add-append (suc n) m (x ∷ xs) ys h =
    rw suc-add (ap (◌∷◌ x) (take-add-append n m xs ys (omega arith)))
