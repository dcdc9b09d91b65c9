-- ===== src/Compiler/Key/Injective.antt =====
-- The bytes that are fed to the digest determine what is compiled: no two different compilations
-- feed the same bytes.
use mathlib.Core.Path.{ap₂}
use octobuild.Prelude.{
  ℕ, ◌%◌, ◌^◌, ◌<◌, Bool, true, false, List, [], ◌∷◌, ◌++◌, Option, none, some, Bytes, length, ◌≡◌,
  refl, ap, sym, ◌∙◌, arith, append_assoc, append-nil, append-injective, if◌then◌else◌,
}
use octobuild.Io.Binary.{le_bytes}
use octobuild.Io.Binary.Words.{length-le_bytes, le_bytes-injective}
use octobuild.Compiler.Key.{
  CompileStep, hash_u64, hash_bytes, hash_args, hash_precompiled, hashed, is_some,
}

abbrev word : ℕ → Bytes
word n = le_bytes 8 (n % 2 ^ 64)

abbrev blob : Bytes → Bytes
blob a = word (length a) ++ a

abbrev blobs : List Bytes → Bytes
blobs [] = []
blobs (a ∷ args) = blob a ++ blobs args

abbrev pub AreShort : List Bytes → Type 0
AreShort [] = Unit
AreShort (a ∷ args) = (length a < 2 ^ 64) × AreShort args

-- Lengths are `usize` values.
pub record IsSized (t : CompileStep) : Type 0 where
  pub preprocessed_short : length t.preprocessed < 2 ^ 64
  pub few_args : length t.args < 2 ^ 64
  pub args_short : AreShort t.args

-- The hash of a header is a text of some length, as that of SHA-256 in hexadecimal is.
abbrev pub IsHash : Option Bytes → Type 0
IsHash none = Unit
IsHash (some h) = (0 < length h) × (length h < 2 ^ 64)

word-append :
    (n m : ℕ) (x y : Bytes)
    → n < 2 ^ 64
    → m < 2 ^ 64
    → word n ++ x ≡ word m ++ y
    → (n ≡ m) × (x ≡ y)
word-append n m x y hn hm e =
    let en : n % 2 ^ 64 ≡ n = omega arith in
    let em : m % 2 ^ 64 ≡ m = omega arith in
    let (w, r) =
      append-injective (word n) (word m) x y
        (length-le_bytes 8 (n % 2 ^ 64) ∙ sym (length-le_bytes 8 (m % 2 ^ 64))) e in
    (sym en ∙ le_bytes-injective 8 (n % 2 ^ 64) (m % 2 ^ 64) (omega arith) (omega arith) w ∙ em, r)

blob-append :
    (a b x y : Bytes)
    → length a < 2 ^ 64
    → length b < 2 ^ 64
    → blob a ++ x ≡ blob b ++ y
    → (a ≡ b) × (x ≡ y)
blob-append a b x y ha hb e =
    let (n, r) =
      word-append (length a) (length b) (a ++ x) (b ++ y) ha hb
        (sym (append_assoc (word (length a)) a x) ∙ e ∙ append_assoc (word (length b)) b y) in
    append-injective a b x y n r

blobs-append :
    (us vs : List Bytes) (x y : Bytes)
    → AreShort us
    → AreShort vs
    → length us ≡ length vs
    → blobs us ++ x ≡ blobs vs ++ y
    → (us ≡ vs) × (x ≡ y)
blobs-append [] [] x y hu hv n e = (refl, e)
blobs-append [] (v ∷ vs) x y hu hv n e = absurd (omega arith)
blobs-append (u ∷ us) [] x y hu hv n e = absurd (omega arith)
blobs-append (u ∷ us) (v ∷ vs) x y hu hv n e =
    let (same, rest) =
      blob-append u v (blobs us ++ x) (blobs vs ++ y) hu.0 hv.0
        (sym (append_assoc (blob u) (blobs us) x) ∙ e ∙ append_assoc (blob v) (blobs vs) y) in
    let (sames, ends) = blobs-append us vs x y hu.1 hv.1 (omega arith) rest in
    (ap₂ ◌∷◌ same sames, ends)

abbrev header_bytes : Option Bytes → Bytes
header_bytes none = word 0
header_bytes (some h) = blob h

hash_bytes-blob : (fed a : Bytes) → hash_bytes fed a ≡ fed ++ blob a
unfolding hash_bytes
hash_bytes-blob fed a = append_assoc fed (word (length a)) a

hash_args-blobs : (args : List Bytes) (fed : Bytes) → hash_args fed args ≡ fed ++ blobs args
unfolding hash_args
hash_args-blobs [] fed = sym (append-nil fed)
hash_args-blobs (a ∷ args) fed =
    hash_args-blobs args (hash_bytes fed a)
    ∙ ap (λ x. x ++ blobs args) (hash_bytes-blob fed a)
    ∙ append_assoc fed (blob a) (blobs args)

hash_precompiled-header :
    (h : Option Bytes) (fed : Bytes) → hash_precompiled fed h ≡ fed ++ header_bytes h
unfolding hash_bytes
hash_precompiled-header none fed = refl
hash_precompiled-header (some h) fed = append_assoc fed (word (length h)) h

abbrev flag_byte : CompileStep → ℕ
flag_byte t = if is_some t.output_precompiled then 1 else 0

abbrev laid_out : CompileStep → Option Bytes → Bytes
laid_out t h =
    blob t.preprocessed
    ++ (word (length t.args) ++ (blobs t.args ++ (header_bytes h ++ flag_byte t ∷ [])))

regroup : (p n b h f : Bytes) → (((p ++ n) ++ b) ++ h) ++ f ≡ p ++ (n ++ (b ++ (h ++ f)))
regroup p n b h f = simp (append_assoc)

hashed-laid_out : (t : CompileStep) (h : Option Bytes) → hashed t h ≡ laid_out t h
unfolding hashed hash_u64
hashed-laid_out t h =
    let start = blob t.preprocessed ++ word (length t.args) in
    ap (λ x. x ++ flag_byte t ∷ []) (hash_precompiled-header h (hash_args start t.args))
    ∙ ap (λ x. (x ++ header_bytes h) ++ flag_byte t ∷ []) (hash_args-blobs t.args start)
    ∙ regroup (blob t.preprocessed) (word (length t.args)) (blobs t.args) (header_bytes h)
        (flag_byte t ∷ [])

header-append :
    (h k : Option Bytes) (x y : Bytes)
    → IsHash h
    → IsHash k
    → header_bytes h ++ x ≡ header_bytes k ++ y
    → (h ≡ k) × (x ≡ y)
header-append none none x y hh hk e =
    let (_, rest) = word-append 0 0 x y (omega arith) (omega arith) e in (refl, rest)
header-append none (some k) x y hh hk e =
    let (n, _) =
      word-append 0 (length k) x (k ++ y) (omega arith) hk.1
        (e ∙ append_assoc (word (length k)) k y) in
    absurd (omega arith)
header-append (some h) none x y hh hk e =
    let (n, _) =
      word-append (length h) 0 (h ++ x) y hh.1 (omega arith)
        (sym (append_assoc (word (length h)) h x) ∙ e) in
    absurd (omega arith)
header-append (some h) (some k) x y hh hk e =
    let (same, rest) = blob-append h k x y hh.1 hk.1 e in (ap some same, rest)

abbrev head : Bytes → ℕ
head [] = 0
head (a ∷ _) = a

abbrev bit : Bool → ℕ
bit b = if b then 1 else 0

bit-injective : (b c : Bool) → bit b ∷ [] ≡ bit c ∷ [] → b ≡ c
bit-injective true true e = refl
bit-injective false false e = refl
bit-injective true false e = absurd (differ 1 0 (omega arith) (ap head e))
  where
    differ : (n m : ℕ) → m < n → n ≡ m → ⊥
    differ n m p q = omega arith
bit-injective false true e = absurd (differ 0 1 (omega arith) (ap head e))
  where
    differ : (n m : ℕ) → n < m → n ≡ m → ⊥
    differ n m p q = omega arith

-- Two compilations for which the same bytes are fed to the digest have the same preprocessed source,
-- the same arguments in order, the same hash of a precompiled header or both none, and both write a
-- precompiled header or neither does.
pub hashed-injective :
    (t u : CompileStep) (h k : Option Bytes)
    → IsSized t
    → IsSized u
    → IsHash h
    → IsHash k
    → hashed t h ≡ hashed u k
    → (t.preprocessed ≡ u.preprocessed)
      × (t.args ≡ u.args)
      × (h ≡ k)
      × (is_some t.output_precompiled ≡ is_some u.output_precompiled)
hashed-injective t u h k st su hh hk e =
    let same = sym (hashed-laid_out t h) ∙ e ∙ hashed-laid_out u k in
    let (sources, after) =
      blob-append t.preprocessed u.preprocessed _ _ st.preprocessed_short su.preprocessed_short
        same in
    let (count, after_count) =
      word-append (length t.args) (length u.args) _ _ st.few_args su.few_args after in
    let (args, after_args) =
      blobs-append t.args u.args _ _ st.args_short su.args_short count after_count in
    let (headers, flags) = header-append h k _ _ hh hk after_args in
    (sources, args, headers, bit-injective (is_some t.output_precompiled) _ flags)
