-- ===== src/Io/MemStream/Slices.antt =====
-- Slices in range, and what `memcpy` does with them.
use octobuild.Prelude.{
  ℕ, ◌+◌, ◌-◌, ◌<◌, ◌≤◌, ◌++◌, some, Bytes, ◌≡◌, refl, ap, ◌∙◌, arith, length, take, drop,
  take-append, length-append, length-take, length-drop,
}
use octobuild.Io.MemStream.{slice_len, slice, memcpy, put}
use octobuild.Io.MemStream.Contents.{take-add-append}

pub slice_len-some : (a b n : ℕ) → a ≤ b → b ≤ n → slice_len a b n ≡ some (b - a)
slice_len-some a b n h h' = ground arith

pub slice-some :
    (a n : ℕ) (xs : Bytes) → a + n ≤ length xs → slice a (a + n) xs ≡ some (take n (drop a xs))
slice-some a n xs h =
    let back : a + n - a ≡ n = omega arith in
    rw (slice_len-some a (a + n) (length xs) (omega arith) h, back)

pub slice-front : (n : ℕ) (xs : Bytes) → n ≤ length xs → slice 0 n xs ≡ some (take n xs)
slice-front n xs h =
    let whole : n - 0 ≡ n = omega arith in
    rw (slice_len-some 0 n (length xs) (omega arith) h, whole) refl

pub memcpy-some : (src : Bytes) (n : ℕ) → length src ≡ n → 0 < n → memcpy src n ≡ some src
memcpy-some src n e h = ground arith

pub length-put :
    (block src : Bytes) (offset : ℕ)
    → offset + length src ≤ length block
    → length (put block offset src) ≡ length block
length-put block src offset h = omega (
  arith,
  length-append (take offset block) (src ++ drop (offset + length src) block),
  length-append src (drop (offset + length src) block),
  length-take offset block,
  length-drop (offset + length src) block,
)

pub take-put :
    (block src : Bytes) (offset : ℕ)
    → offset + length src ≤ length block
    → take (offset + length src) (put block offset src) ≡ take offset block ++ src
take-put block src offset h =
    take-add-append offset (length src) (take offset block)
      (src ++ drop (offset + length src) block) (omega (arith, length-take offset block))
    ∙ ap (λ w. take offset block ++ w)
        (take-append (length src) src (drop (offset + length src) block) refl)
