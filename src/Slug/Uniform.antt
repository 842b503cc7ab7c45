-- ===== src/Slug/Uniform.antt =====
-- The rejection sampling of slug-generator.service.ts has no bias.
use mikrouli.Common.{
  ℕ, zero, suc, ◌+◌, ◌<◌, ◌≡◌, refl, Bool, true, ◌&&◌, Option, none, some, arith, ◌==◌, length,
  if◌then◌else◌,
}
use mikrouli.Slug.{alphabet, byte_to_index}

abbrev is_index : ℕ → Option ℕ → Bool
is_index i none = Bool.false
is_index i (some j) = i == j

-- How many of the bytes below a bound are mapped to one index.
abbrev pub hits : ℕ → ℕ → ℕ
hits i zero = 0
hits i (suc b) = (if is_index i (byte_to_index b) then 1 else 0) + hits i b

abbrev all_below : ℕ → (ℕ → Bool) → Bool
all_below zero p = true
all_below (suc n) p = p n && all_below n p

all_below_sound : (n : ℕ) (p : ℕ → Bool) (i : ℕ) → all_below n p ≡ true → i < n → p i ≡ true
all_below_sound zero p i h lt = absurd (omega arith)
all_below_sound (suc n) p i h lt = ground (arith, all_below_sound n p i)

hits_table : all_below 61 (λ i. hits i 256 == 4) ≡ true
unfolding byte_to_index
hits_table = refl

==→eq : (a b : ℕ) → (a == b) ≡ true → a ≡ b
==→eq a b h = ground arith

-- Of the 256 values of a byte exactly four are mapped to each index of the alphabet.
pub byte_to_index_uniform : (i : ℕ) → i < length alphabet → hits i 256 ≡ 4
byte_to_index_uniform i h = ==→eq _ 4 (all_below_sound 61 (λ j. hits j 256 == 4) i hits_table h)
