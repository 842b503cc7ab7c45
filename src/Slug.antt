-- ===== src/Slug.antt =====
-- apps/api/src/links/slug-generator.service.ts. The bytes of `crypto.randomBytes` are a stream that
-- the generator is given; a buffer is the next bytes of it.
pub mod Sampling
pub mod Uniform
use mikrouli.Common.{
  ℕ, zero, suc, ◌+◌, ◌-◌, ◌*◌, ◌/◌, ◌%◌, Option, none, some, List, [], ◌∷◌, ◌++◌, ltb, leb, length,
  get_elem?, if◌then◌else◌,
}
use Prim.Native.Char.{Char, code}
use Prim.Native.String

-- The characters of a text.
abbrev pub chars : String.String → List Char
chars String.[] = []
chars (String.◌∷◌ c s) = c ∷ chars s

abbrev pub alphabet : List Char
alphabet = chars "0123456789abcdefghijklmnopqrstuvwxyzABCDEFGHJKLMNPQRSTUVWXYZ_"

abbrev pub slug_length : ℕ
slug_length = 6

abbrev pub max_byte : ℕ
max_byte = length alphabet * (256 / length alphabet)

abbrev pub rejection_buffer : ℕ
rejection_buffer = 2

pub byte_to_index : ℕ → Option ℕ
byte_to_index byte = if leb max_byte byte then none else some (byte % length alphabet)

-- `next += ALPHABET[idx]`, for an index that may be absent.
append_char : List Char → Option ℕ → List Char
append_char acc none = acc
append_char acc (some idx) = elim (get_elem? alphabet idx) [ none ↦ acc | some c ↦ acc ++ c ∷ [] ]

-- The loop of `takeChars`, over the bytes that are left of the buffer.
pub take_chars : List ℕ → List Char → List Char
unfolding byte_to_index append_char
take_chars [] acc = acc
take_chars (byte ∷ buffer) acc =
    let rest = take_chars buffer (append_char acc (byte_to_index byte)) in
    if ltb (length acc) slug_length then rest else acc

-- `randomBytes(n)`: the stream's bytes from `at` on.
pub random_bytes : (ℕ → ℕ) → ℕ → ℕ → List ℕ
random_bytes stream at zero = []
random_bytes stream at (suc n) = stream at ∷ random_bytes stream (suc at) n

-- The loop of `buildSlug`; `none` when the rounds run out.
pub build_slug : ℕ → (ℕ → ℕ) → ℕ → List Char → Option (List Char)
build_slug zero stream at slug = if ltb (length slug) slug_length then none else some slug
build_slug (suc rounds) stream at slug =
    let wanted = slug_length - length slug + rejection_buffer in
    let rest =
      build_slug rounds stream (at + wanted) (take_chars (random_bytes stream at wanted) slug) in
    if ltb (length slug) slug_length then rest else some slug
