-- ===== src/ClickHouse/Laws.antt =====
-- What apps/api/src/clickhouse/clickhouse.service.ts relies on of ClickHouse, and its dictionaries.
use Prim.Native.Char.{Char, code}
use mikrouli.Web.Regex.{is_digit}
use mikrouli.Common.{
  ℕ, zero, suc, ◌+◌, ◌*◌, ◌-◌, ◌<◌, some, get_elem?, length, ap, ◌∙◌, String, Bool, true, false,
  Option, none, List, [], ◌∷◌, ◌++◌, All, or_else, str_eq, eq_iff, ◌≡◌, ◌≢◌, ◌⊎◌, inl, inr, refl,
  arith,
}
use mikrouli.Http.{Exception, ok, throw}
use mikrouli.ClickHouse.{
  Entry, Dictionary, ClickHouseClient, stats_ddl, dictionary_tables, parse_digits, is_positive,
}

abbrev pub is_filled : List Entry → Bool
is_filled [] = false
is_filled (e ∷ es) = true

-- A decimal digit as it is written, and a number by its digits, the first one first.
abbrev pub digit_char : ℕ → Char
digit_char n =
    or_else (get_elem? ("0" ∷ "1" ∷ "2" ∷ "3" ∷ "4" ∷ "5" ∷ "6" ∷ "7" ∷ "8" ∷ "9" ∷ []) n) "0"

abbrev pub written : List ℕ → String
written [] = ""
written (d ∷ ds) = String.◌∷◌ (digit_char d) (written ds)

abbrev pub value_of : ℕ → List ℕ → ℕ
value_of acc [] = acc
value_of acc (d ∷ ds) = value_of (acc * 10 + d) ds

-- The text is a number in decimal, of one digit or more.
abbrev pub IsDecimal : String → ℕ → Type 0
IsDecimal text n =
    (d : ℕ) × (ds : List ℕ) × All (λ k. k < 10) (d ∷ ds)
    × (text ≡ written (d ∷ ds))
    × (value_of 0 (d ∷ ds) ≡ n)

-- What the code relies on of ClickHouse: the schema's commands keep the rows of the tables, a count
-- keeps them and is how many there are, in decimal, and an insert that returns has added its rows to
-- its table, and one that throws has added none.
pub record ClickHouseLaws {C : Type 0} (client : ClickHouseClient C) : Type 0 where
  pub rows : C → String → List Entry
  pub ddl_keeps :
      All (λ ddl. (c : C) (t : String) → rows (client.command ddl c).1 t ≡ rows c t) stats_ddl
  pub total_keeps : (t u : String) (c : C) → rows (client.total t c).1 u ≡ rows c u
  pub total_counts :
      (t : String) (c : C) (total : Option String)
      → (client.total t c).0 ≡ ok total
      → (text : String) × (total ≡ some text) × IsDecimal text (length (rows c t))
  pub insert_adds :
      (t : String) (es : List Entry) (c : C)
      → (client.insert t es c).0 ≡ ok tt
      → rows (client.insert t es c).1 t ≡ rows c t ++ es
  pub insert_throws :
      (t : String) (es : List Entry) (c : C) (x : Exception)
      → (client.insert t es c).0 ≡ throw x
      → rows (client.insert t es c).1 t ≡ rows c t
  pub insert_keeps :
      (t u : String) (es : List Entry) (c : C) → t ≢ u → rows (client.insert t es c).1 u ≡ rows c u

digit_char-code :
    (d : ℕ) → d < 10 → (is_digit (code (digit_char d)) ≡ true) × (code (digit_char d) - b'0' ≡ d)
digit_char-code zero h = (refl, refl)
digit_char-code (suc zero) h = (refl, refl)
digit_char-code (suc (suc zero)) h = (refl, refl)
digit_char-code (suc (suc (suc zero))) h = (refl, refl)
digit_char-code (suc (suc (suc (suc zero)))) h = (refl, refl)
digit_char-code (suc (suc (suc (suc (suc zero))))) h = (refl, refl)
digit_char-code (suc (suc (suc (suc (suc (suc zero)))))) h = (refl, refl)
digit_char-code (suc (suc (suc (suc (suc (suc (suc zero))))))) h = (refl, refl)
digit_char-code (suc (suc (suc (suc (suc (suc (suc (suc zero)))))))) h = (refl, refl)
digit_char-code (suc (suc (suc (suc (suc (suc (suc (suc (suc zero))))))))) h = (refl, refl)
digit_char-code (suc (suc (suc (suc (suc (suc (suc (suc (suc (suc n)))))))))) h =
    absurd (omega arith)

parse_digits-step :
    (read : Option ℕ) (d : ℕ) (s : String)
    → d < 10
    → parse_digits read (String.◌∷◌ (digit_char d) s)
      ≡ parse_digits (some (or_else read 0 * 10 + d)) s
parse_digits-step read d s h =
    let (is, value) = digit_char-code d h in
    (rw is refl) ∙ ap (λ k. parse_digits (some (or_else read 0 * 10 + k)) s) value

parse_digits-written :
    (acc : ℕ) (ds : List ℕ)
    → All (λ k. k < 10) ds
    → parse_digits (some acc) (written ds) ≡ some (value_of acc ds)
parse_digits-written acc [] h = refl
parse_digits-written acc (d ∷ ds) (small, more) =
    parse_digits-step (some acc) d (written ds) small ∙ parse_digits-written (acc * 10 + d) ds more

-- What a decimal says is what the code reads.
pub parse_digits-IsDecimal :
    (text : String) (n : ℕ) → IsDecimal text n → parse_digits none text ≡ some n
parse_digits-IsDecimal text n (d, ds, (small, more), is, value) =
    ap (parse_digits none) is
    ∙ parse_digits-step none d (written ds) small
    ∙ parse_digits-written (0 * 10 + d) ds more
    ∙ ap some value

is_positive-length : (es : List Entry) → is_positive (some (length es)) ≡ is_filled es
is_positive-length [] = refl
is_positive-length (e ∷ es) = ground arith

module _ {C : Type 0} (client : ClickHouseClient C) (laws : ClickHouseLaws client) where
  -- The code's test of a count is whether there are rows.
  pub counts-is_filled :
      (t : String) (c : C) (total : Option String)
      → (client.total t c).0 ≡ ok total
      → is_positive (parse_digits none (or_else total "0")) ≡ is_filled (laws.rows c t)
  counts-is_filled t c total e =
      let (text, is, decimal) = laws.total_counts t c total e in
      ap (λ o. is_positive (parse_digits none (or_else o "0"))) is
      ∙ ap is_positive (parse_digits-IsDecimal text (length (laws.rows c t)) decimal)
      ∙ is_positive-length (laws.rows c t)

-- Two dictionaries are one, or they have different tables.
abbrev pub IsApart : Dictionary → Dictionary → Type 0
IsApart d e = (e ≡ d) ⊎ (e.table ≢ d.table)

differ : {s t : String} → str_eq s t ≡ false → s ≢ t
differ {s} {t} e same = ground (arith, eq_iff s t)

pub tables-IsApart : All (λ d. All (IsApart d) dictionary_tables) dictionary_tables
tables-IsApart = (
  (inl refl, (inr (differ refl), (inr (differ refl), (inr (differ refl), tt)))),
  (
    (inr (differ refl), (inl refl, (inr (differ refl), (inr (differ refl), tt)))),
    (
      (inr (differ refl), (inr (differ refl), (inl refl, (inr (differ refl), tt)))),
      ((inr (differ refl), (inr (differ refl), (inr (differ refl), (inl refl, tt)))), tt),
    ),
  ),
)
