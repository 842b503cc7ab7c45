-- ===== src/Examples/ClickHouse.antt =====
-- Starts of the service over a ClickHouse held in memory, which refuses its first calls.
use mikrouli.Common.{
  ◌≡◌, length, ℕ, zero, suc, String, Bool, true, false, Option, some, List, [], ◌++◌, All, str_eq,
  eq_iff, eq_refl, ◌≢◌, inl, refl, arith, if◌then◌else◌,
}
use mikrouli.Http.{Exception, Result, ok, throw, other}
use mikrouli.ClickHouse.{
  Entry, ClickHouseClient, dictionary_tables, parse_digits, is_positive, init_schema_and_seed,
}
use mikrouli.Examples.Decimals.{
  digits_within, digits_within-value, digits_within-small, digits_within-IsDecimal,
  digits_within-ne-nil,
}
use mikrouli.ClickHouse.Laws.{ClickHouseLaws, IsDecimal, written}
use mikrouli.ClickHouse.Seeding.{starts}
use mikrouli.ClickHouse.Filled.{IsFull, init_schema_and_seed-IsFull}

-- The tables, and how many calls are refused.
abbrev Store : Type 0
Store = (String → List Entry) × ℕ

abbrev answered : {A : Type 0} → A → Store → Store → Result A × Store
answered a after (tables, zero) = (ok a, after)
answered a after (tables, suc n) = (throw (other "refused"), (tables, n))

abbrev added : String → List Entry → (String → List Entry) → String → List Entry
added t es tables u = if str_eq t u then tables u ++ es else tables u

-- How many rows there are.
count_text : List Entry → String
unfolding digits_within
count_text es = written (digits_within (suc (length es)) (length es))

count_text-IsDecimal : (es : List Entry) → IsDecimal (count_text es) (length es)
unfolding count_text digits_within
count_text-IsDecimal es =
    let n = length es in
    digits_within-IsDecimal n (digits_within (suc n) n)
      (digits_within-small (suc n) n (omega arith)) (digits_within-value (suc n) n (omega arith))
      (digits_within-ne-nil (suc n) n)

abbrev memory : ClickHouseClient Store
memory = record {
  command = λ ddl s. answered tt s s;
  total = λ t s. answered (some (count_text (s.0 t))) s s;
  insert = λ t es s. answered tt (added t es s.0, 0) s;
}

answered-keeps : {A : Type 0} (a : A) (s : Store) (t : String) → (answered a s s).1.0 t ≡ s.0 t
answered-keeps a (tables, zero) t = refl
answered-keeps a (tables, suc n) t = refl

some_of : {A : Type 0} {a b : A} → ok a ≡ ok b → b ≡ a
some_of e = ground arith

if_same : (b : Bool) (x y : List Entry) → b ≡ true → (if b then x else y) ≡ x
if_same true x y e = refl
if_same false x y e = absurd (ground arith)

if_other : (b : Bool) (x y : List Entry) → b ≢ true → (if b then x else y) ≡ y
if_other true x y ne = absurd (ne refl)
if_other false x y ne = refl

answered-counts :
    (es : List Entry) (s : Store) (total : Option String)
    → (answered (some (count_text es)) s s).0 ≡ ok total
    → (text : String) × (total ≡ some text) × IsDecimal text (length es)
answered-counts es (tables, zero) total e = (count_text es, some_of e, count_text-IsDecimal es)
answered-counts es (tables, suc n) total e = absurd (ground arith)

insert-adds :
    (t : String) (es : List Entry) (s : Store)
    → (answered tt (added t es s.0, 0) s).0 ≡ ok tt
    → (answered tt (added t es s.0, 0) s).1.0 t ≡ s.0 t ++ es
insert-adds t es (tables, zero) e = if_same (str_eq t t) (tables t ++ es) (tables t) (eq_refl t)
insert-adds t es (tables, suc n) e = absurd (ground arith)

insert-throws :
    (t : String) (es : List Entry) (s : Store) (x : Exception)
    → (answered tt (added t es s.0, 0) s).0 ≡ throw x
    → (answered tt (added t es s.0, 0) s).1.0 t ≡ s.0 t
insert-throws t es (tables, zero) x e = absurd (ground arith)
insert-throws t es (tables, suc n) x e = refl

insert-keeps :
    (t u : String) (es : List Entry) (s : Store)
    → t ≢ u
    → (answered tt (added t es s.0, 0) s).1.0 u ≡ s.0 u
insert-keeps t u es (tables, zero) ne =
    if_other (str_eq t u) (tables u ++ es) (tables u) (λ e. ground (arith, eq_iff t u))
insert-keeps t u es (tables, suc n) ne = refl

abbrev memory-laws : ClickHouseLaws memory
memory-laws = record {
  rows = λ s t. s.0 t;
  ddl_keeps = (
    answered-keeps tt,
    (
      answered-keeps tt,
      (answered-keeps tt, (answered-keeps tt, (answered-keeps tt, (answered-keeps tt, tt)))),
    ),
  );
  total_keeps = λ t u s. answered-keeps (some (count_text (s.0 t))) s u;
  total_counts = λ t s total e. answered-counts (s.0 t) s total e;
  insert_adds = insert-adds;
  insert_throws = insert-throws;
  insert_keeps = insert-keeps;
}

-- Nothing is stored, and the first call is refused.
abbrev fresh : Store
fresh = ((λ t. []), 1)

init_schema_and_seed-IsFull_example :
    All
      (IsFull memory memory-laws
        (init_schema_and_seed memory (starts memory memory-laws 1 fresh)).1)
      dictionary_tables
unfolding init_schema_and_seed mikrouli.ClickHouse.run_ddl_list
    mikrouli.ClickHouse.seed_all_dictionaries mikrouli.ClickHouse.seed_table_if_empty
    mikrouli.ClickHouse.fetch_row_count count_text
init_schema_and_seed-IsFull_example =
    init_schema_and_seed-IsFull memory memory-laws 1 fresh
      (inl refl, (inl refl, (inl refl, (inl refl, tt)))) refl
