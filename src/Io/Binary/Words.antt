-- ===== src/Io/Binary/Words.antt =====
-- Integers as bytes: the round trip, and the width.
use native.Mathlib.Nat.{pow-suc}
use octobuild.Prelude.{ℕ, zero, suc, ◌*◌, ◌/◌, ◌^◌, ◌<◌, ◌≡◌, refl, ap, ◌∙◌, sym, arith, length}
use octobuild.Io.Binary.{le_bytes, from_le_bytes}

pub length-le_bytes : (n i : ℕ) → length (le_bytes n i) ≡ n
unfolding le_bytes
length-le_bytes zero i = refl
length-le_bytes (suc n) i = ap suc (length-le_bytes n (i / 256))

div_below : (n i : ℕ) → i < 256 ^ suc n → i / 256 < 256 ^ n
div_below n i h = let h' : i < 256 ^ n * 256 = rw pow-suc at h in omega arith

-- An integer that fits in n bytes is read back from its n bytes.
pub from_le_bytes-le_bytes : (n i : ℕ) → i < 256 ^ n → from_le_bytes (le_bytes n i) ≡ i
unfolding le_bytes from_le_bytes
from_le_bytes-le_bytes zero i h = omega arith
from_le_bytes-le_bytes (suc n) i h =
    omega (arith, from_le_bytes-le_bytes n (i / 256) (div_below n i h))

pub le_bytes-injective :
    (n i j : ℕ) → i < 256 ^ n → j < 256 ^ n → le_bytes n i ≡ le_bytes n j → i ≡ j
le_bytes-injective n i j hi hj e =
    sym (from_le_bytes-le_bytes n i hi) ∙ ap from_le_bytes e ∙ from_le_bytes-le_bytes n j hj
