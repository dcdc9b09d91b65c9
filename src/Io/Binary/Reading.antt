-- ===== src/Io/Binary/Reading.antt =====
-- `read_exact` over any stream, however it cuts its bytes into pieces.
use octobuild.Prelude.{
  ℕ, zero, suc, ◌-◌, ◌≤◌, ◌<◌, ◌^◌, ◌%◌, false, [], ◌∷◌, ◌++◌, ◌≡◌, refl, ap, ◌∙◌, sym, ◌⊎◌, inl,
  inr, arith, Bytes, ok, err, length, take, drop, length-append, take-append, drop-append,
  append_assoc, Bool-cases, ◌==◌, ==_iff,
}
use octobuild.Io.Stream.{unexpected_end_of_data, Reader, IsReader, NeverFails}
use octobuild.Io.Binary.{le_bytes, from_le_bytes, read_loop, read_exact, read_u64, read_usize}
use octobuild.Io.Binary.Words.{length-le_bytes, from_le_bytes-le_bytes}

module _ {S : Type 0} (r : Reader S) (Valid : S → Type 0) (rest : S → Bytes)
    (laws : IsReader r Valid rest) where
  -- What a loop that wants `need` bytes ends in.
  abbrev Full : ℕ → ℕ → S → Type 0
  Full fuel need s =
      (b : Bytes) × (t : S) × (read_loop r fuel s need ≡ ok (b, t))
      × (rest s ≡ b ++ rest t)
      × (length b ≡ need)
      × Valid t

  abbrev Short : ℕ → ℕ → S → Type 0
  Short fuel need s =
      (length (rest s) < need) × (read_loop r fuel s need ≡ err unexpected_end_of_data)

  read_round :
      (fuel need : ℕ) (s t : S) (c : ℕ) (cs : Bytes)
      → (need == 0) ≡ false
      → Valid s
      → r.read s need ≡ ok (c ∷ cs, t)
      → Full fuel (need - suc (length cs)) t ⊎ Short fuel (need - suc (length cs)) t
      → Full (suc fuel) need s ⊎ Short (suc fuel) need s
  unfolding read_loop
  read_round fuel need s t c cs more v e (inl (b, u, e', splits, full, v')) = inl (
    (c ∷ cs) ++ b,
    u,
    rw (more, e, e', read_loop),
    laws.splits s need v e
        ∙ ap (λ w. (c ∷ cs) ++ w) splits
        ∙ sym (append_assoc (c ∷ cs) b (rest u)),
    omega (arith, length-append (c ∷ cs) b, laws.fits s need v e),
    v',
  )
  read_round fuel need s t c cs more v e (inr (short, e')) = inr (
    omega (
      arith,
      ap length (laws.splits s need v e),
      length-append (c ∷ cs) (rest t),
      laws.fits s need v e,
    ),
    rw (more, e, e', read_loop),
  )

  read_first :
      (fuel need : ℕ) (s t : S) (chunk : Bytes)
      → (need == 0) ≡ false
      → Valid s
      → r.read s need ≡ ok (chunk, t)
      → (Valid t → (k : ℕ) → k ≤ fuel → Full fuel k t ⊎ Short fuel k t)
      → need ≤ suc fuel
      → Full (suc fuel) need s ⊎ Short (suc fuel) need s
  unfolding read_loop
  read_first fuel need s t [] more v e ih h = elim (laws.stops s need v e) [
    | inl z ↦ cc (more, (==_iff need 0).1 z)
    | inr z ↦ inr (ground (arith, ap length z, ==_iff need 0), rw (more, e, read_loop))
  ]
  read_first fuel need s t (c ∷ cs) more v e ih h =
      read_round fuel need s t c cs more v e
        (ih (laws.keeps s need v e) (need - suc (length cs)) (omega arith))

  read_loop_cases :
      NeverFails r Valid
      → (fuel need : ℕ) (s : S) → need ≤ fuel
      → Valid s
      → Full fuel need s ⊎ Short fuel need s
  unfolding read_loop
  read_loop_cases total zero need s h v = inl ([], s, refl, refl, omega arith, v)
  read_loop_cases total (suc fuel) need s h v = elim (Bool-cases (need == 0)) [
    | inl z ↦ inl ([], s, rw (z, read_loop), refl, ground arith, v)
    | inr more ↦
        let (chunk, t, e) = total s need v in
        read_first fuel need s t chunk more v e (λ v' k hk. read_loop_cases total fuel k t hk v') h
  ]

  abbrev Read : ℕ → S → Type 0
  Read n s =
      (t : S) × (n ≤ length (rest s))
      × (read_exact r s n ≡ ok (take n (rest s), t))
      × (rest t ≡ drop n (rest s))
      × Valid t

  -- On a stream of which no read fails, `read_exact` of `n` bytes returns the next `n` bytes and
  -- leaves the stream behind them, whatever the pieces in which the stream gives them; and it fails
  -- with "Unexpected end of data" exactly if fewer than `n` are left.
  pub read_exact_lem :
      NeverFails r Valid
      → (s : S) (n : ℕ) → Valid s
      → Read n s ⊎ (length (rest s) < n) × (read_exact r s n ≡ err unexpected_end_of_data)
  unfolding read_exact
  read_exact_lem total s n v = elim (read_loop_cases total n n s (omega arith) v) [
    | inl (b, t, e, splits, full, v') ↦ inl (
      t,
      omega (arith, ap length splits, length-append b (rest t)),
      rw (splits, take-append n b (rest t) full) e,
      rw (splits, drop-append n b (rest t) full) refl,
      v',
    )
    | inr short ↦ inr short
  ]

  read_word :
      NeverFails r Valid
      → (s : S) (w more : Bytes) → Valid s
      → length w ≡ 8
      → rest s ≡ w ++ more
      → (t : S) × (read_u64 r s ≡ ok (from_le_bytes w, t)) × (rest t ≡ more) × Valid t
  unfolding read_u64 read_exact
  read_word total s w more v h e = elim (read_exact_lem total s 8 v) [
    | inl (t, enough, e', left, v') ↦
        let front : take 8 (rest s) ≡ w = rw e (take-append 8 w more h) in
        let back : drop 8 (rest s) ≡ more = rw e (drop-append 8 w more h) in
        (t, rw (e', front), left ∙ back, v')
    | inr (short, e') ↦ absurd (omega (arith, ap length e, length-append w more))
  ]

  -- A `u64` that stands at the front of the stream, little end first, is read back.
  pub read_u64-le_bytes :
      NeverFails r Valid
      → (s : S) (i : ℕ) (more : Bytes) → Valid s
      → i < 2 ^ 64
      → rest s ≡ le_bytes 8 i ++ more
      → (t : S) × (read_u64 r s ≡ ok (i, t)) × (rest t ≡ more) × Valid t
  read_u64-le_bytes total s i more v h e =
      let (t, e', left, v') = read_word total s (le_bytes 8 i) more v (length-le_bytes 8 i) e in
      (t, rw (from_le_bytes-le_bytes 8 i h) at e', left, v')

  -- And so is a `usize`.
  pub read_usize-le_bytes :
      NeverFails r Valid
      → (s : S) (i : ℕ) (more : Bytes) → Valid s
      → i < 2 ^ 64
      → rest s ≡ le_bytes 8 i ++ more
      → (t : S) × (read_usize r s ≡ ok (i, t)) × (rest t ≡ more) × Valid t
  unfolding read_usize
  read_usize-le_bytes total s i more v h e =
      let (t, e', left, v') = read_u64-le_bytes total s i more v h e in
      let small : i % 2 ^ 64 ≡ i = omega arith in (t, rw (e', small), left, v')
