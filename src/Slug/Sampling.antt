-- ===== src/Slug/Sampling.antt =====
-- What the loops of slug-generator.service.ts produce, and when they end.
use Prim.Native.Char.{Char}
use mathlib.Core.Path.{subst}
use mikrouli.Common.{
  ℕ, zero, suc, ◌+◌, ◌-◌, ◌%◌, ◌≤◌, ◌<◌, ◌≡◌, refl, ◌⊎◌, inl, inr, Option, none, some, List, [],
  ◌∷◌, arith, ltb, length, length-append, All, All-append, get_elem?, Bool-cases, Option-cases,
  ltb→lt,
}
use mikrouli.Slug.{
  alphabet, slug_length, max_byte, rejection_buffer, byte_to_index, append_char, take_chars,
  random_bytes, build_slug,
}

-- A character stands in the alphabet at some index.
abbrev pub InAlphabet : Char → Type 0
InAlphabet c = (i : ℕ) × (get_elem? alphabet i ≡ some c)

get_elem?_total :
    {A : Type 0} (xs : List A) (i : ℕ) → i < length xs → (a : A) × (get_elem? xs i ≡ some a)
get_elem?_total [] i h = absurd (omega arith)
get_elem?_total (x ∷ xs) zero h = (x, refl)
get_elem?_total (x ∷ xs) (suc i) h = get_elem?_total xs i (omega arith)

-- A byte below the ceiling has an index of the alphabet.
byte_to_index-lt :
    (b : ℕ) → b < max_byte → (i : ℕ) × (byte_to_index b ≡ some i) × (i < length alphabet)
unfolding byte_to_index
byte_to_index-lt b h = (b % length alphabet, ground arith, omega arith)

append_char-All :
    (acc : List Char) (o : Option ℕ) → All InAlphabet acc → All InAlphabet (append_char acc o)
unfolding append_char
append_char-All acc none h = h
append_char-All acc (some i) h = elim (Option-cases (get_elem? alphabet i)) [
  | inl e ↦ rw (e, append_char) h
  | inr (c, e) ↦ rw (e, append_char) (All-append InAlphabet acc (c ∷ []) h ((i, e), tt))
]

append_char_bounds :
    (acc : List Char) (o : Option ℕ)
    → (length acc ≤ length (append_char acc o)) × (length (append_char acc o) ≤ length acc + 1)
unfolding append_char
append_char_bounds acc none = omega arith
append_char_bounds acc (some i) = elim (Option-cases (get_elem? alphabet i)) [
  | inl e ↦ rw (e, append_char) (omega arith)
  | inr (c, e) ↦ rw (e, append_char) (omega (arith, length-append acc (c ∷ [])))
]

append_char_accepted :
    (acc : List Char) (b : ℕ)
    → b < max_byte
    → length (append_char acc (byte_to_index b)) ≡ length acc + 1
unfolding append_char
append_char_accepted acc b h =
    let (i, e, lt) = byte_to_index-lt b h in
    let (c, found) = get_elem?_total alphabet i lt in
    rw (e, append_char, found) (length-append acc (c ∷ []))

take_chars-All :
    (buffer : List ℕ) (acc : List Char)
    → All InAlphabet acc
    → All InAlphabet (take_chars buffer acc)
unfolding take_chars
take_chars-All [] acc h = h
take_chars-All (b ∷ buffer) acc h = elim (Bool-cases (ltb (length acc) slug_length)) [
  | inl e ↦ rw e (take_chars-All buffer _ (append_char-All acc (byte_to_index b) h))
  | inr e ↦ rw e h
]

take_chars_bounds :
    (buffer : List ℕ) (acc : List Char)
    → length acc ≤ slug_length
    → (length acc ≤ length (take_chars buffer acc)) × (length (take_chars buffer acc) ≤ slug_length)
unfolding take_chars
take_chars_bounds [] acc h = omega arith
take_chars_bounds (b ∷ buffer) acc h = ground (
  arith,
  append_char_bounds acc (byte_to_index b),
  take_chars_bounds buffer (append_char acc (byte_to_index b)),
)

-- Some byte of a buffer lies below the ceiling.
abbrev Accepting : List ℕ → Type 0
Accepting [] = ⊥
Accepting (b ∷ buffer) = (b < max_byte) ⊎ Accepting buffer

take_chars_grows :
    (buffer : List ℕ) (acc : List Char)
    → length acc < slug_length
    → Accepting buffer
    → length acc < length (take_chars buffer acc)
unfolding take_chars
take_chars_grows [] acc h none_left = elim none_left [ ]
take_chars_grows (b ∷ buffer) acc h (inl accepted) = ground (
  arith,
  append_char_accepted acc b accepted,
  take_chars_bounds buffer (append_char acc (byte_to_index b)),
)
take_chars_grows (b ∷ buffer) acc h (inr later) = ground (
  arith,
  append_char_bounds acc (byte_to_index b),
  take_chars_bounds buffer (append_char acc (byte_to_index b)),
  λ (more : length (append_char acc (byte_to_index b)) < slug_length).
      take_chars_grows buffer (append_char acc (byte_to_index b)) more later,
)

-- Among any three neighbours of the stream one byte lies below the ceiling.
abbrev pub Productive : (ℕ → ℕ) → Type 0
Productive stream =
    (at : ℕ)
    → (stream at < max_byte) ⊎ (stream (suc at) < max_byte) ⊎ (stream (suc (suc at)) < max_byte)

random_bytes-Accepting :
    (stream : ℕ → ℕ) (at n : ℕ) → Productive stream → 2 < n → Accepting (random_bytes stream at n)
unfolding random_bytes
random_bytes-Accepting stream at zero p h = absurd (omega arith)
random_bytes-Accepting stream at (suc zero) p h = absurd (omega arith)
random_bytes-Accepting stream at (suc (suc zero)) p h = absurd (omega arith)
random_bytes-Accepting stream at (suc (suc (suc n))) p h = elim (p at) [
  | inl a ↦ inl a
  | inr (inl b) ↦ inr (inl b)
  | inr (inr c) ↦ inr (inr (inl c))
]

-- A finished slug: six characters, each of the alphabet.
pub record IsSlug (s : List Char) : Type 0 where
  pub length_six : length s ≡ slug_length
  pub over_alphabet : All InAlphabet s

build_slug_sound :
    (rounds : ℕ) (stream : ℕ → ℕ) (at : ℕ) (acc : List Char) {s : List Char}
    → length acc ≤ slug_length
    → All InAlphabet acc
    → build_slug rounds stream at acc ≡ some s
    → IsSlug s
unfolding build_slug
build_slug_sound zero stream at acc {s} bound over e =
    elim (Bool-cases (ltb (length acc) slug_length)) [
      | inl short ↦ absurd (ground arith)
      | inr full ↦
          let same : acc ≡ s = ground arith in
          subst IsSlug same (record { length_six = ground arith; over_alphabet = over })
    ]
build_slug_sound (suc rounds) stream at acc {s} bound over e =
    let wanted = slug_length - length acc + rejection_buffer in
    let buffer = random_bytes stream at wanted in
    elim (Bool-cases (ltb (length acc) slug_length)) [
      | inl short ↦
          build_slug_sound rounds stream (at + wanted) (take_chars buffer acc)
            (take_chars_bounds buffer acc bound).1 (take_chars-All buffer acc over) (ground arith)
      | inr full ↦
          let same : acc ≡ s = ground arith in
          subst IsSlug same (record { length_six = ground arith; over_alphabet = over })
    ]

build_slug_total :
    (rounds : ℕ) (stream : ℕ → ℕ) (at : ℕ) (acc : List Char)
    → Productive stream
    → length acc ≤ slug_length
    → slug_length ≤ length acc + rounds
    → (s : List Char) × (build_slug rounds stream at acc ≡ some s)
unfolding build_slug
build_slug_total zero stream at acc p bound enough = (acc, ground arith)
build_slug_total (suc rounds) stream at acc p bound enough =
    let wanted = slug_length - length acc + rejection_buffer in
    let buffer = random_bytes stream at wanted in
    elim (Bool-cases (ltb (length acc) slug_length)) [
      | inl short ↦
          let less : length acc < slug_length = ltb→lt _ _ short in
          let grown =
            take_chars_grows buffer acc less
              (random_bytes-Accepting stream at wanted p (omega arith)) in
          rw short (
            build_slug_total rounds stream (at + wanted) (take_chars buffer acc) p
              (take_chars_bounds buffer acc bound).1 (omega arith))
      | inr full ↦ (acc, rw full)
    ]

-- From any position of a stream in which no three neighbours are all rejected, six rounds of the
-- loop are enough, and they give six characters, each of the alphabet.
pub build_slug-IsSlug :
    (stream : ℕ → ℕ) (at : ℕ)
    → Productive stream
    → (s : List Char) × (build_slug 6 stream at [] ≡ some s) × IsSlug s
build_slug-IsSlug stream at p =
    let (s, e) = build_slug_total 6 stream at [] p (omega arith) (omega arith) in
    (s, e, build_slug_sound 6 stream at [] (omega arith) tt e)
