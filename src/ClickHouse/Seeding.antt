-- ===== src/ClickHouse/Seeding.antt =====
-- What the starts of apps/api/src/clickhouse/clickhouse.service.ts leave in the dictionaries.
use mathlib.Core.Path.{subst}
use mikrouli.Common.{
  ℕ, zero, suc, String, Bool, true, false, Option, none, List, [], ◌∷◌, ◌++◌, All, or_else, ◌≡◌,
  ◌≢◌, ◌⊎◌, inl, inr, refl, sym, ap, ◌∙◌, arith, if◌then◌else◌,
}
use mikrouli.Http.{Result, ok, throw, Result-cases}
use mikrouli.Io.{Io, pure, continue, recover, ◌>>=◌}
use mikrouli.ClickHouse.{
  Entry, Dictionary, ClickHouseClient, stats_ddl, dictionary_tables, parse_digits, is_positive,
  run_ddl_list, fetch_row_count, seed_table_if_empty, seed_all_dictionaries, init_schema_and_seed,
}
use mikrouli.ClickHouse.Laws.{counts-is_filled, is_filled, ClickHouseLaws, IsApart, tables-IsApart}

module _ {C : Type 0} (client : ClickHouseClient C) (laws : ClickHouseLaws client) where
  open laws use {rows}

  -- A table is empty or holds its seed, once.
  abbrev pub IsSeeded : C → Dictionary → Type 0
  IsSeeded c d = (rows c d.table ≡ []) ⊎ (rows c d.table ≡ d.rows)

  pub same-IsSeeded :
      (c c' : C) (d : Dictionary) → rows c' d.table ≡ rows c d.table → IsSeeded c d → IsSeeded c' d
  same-IsSeeded c c' d e (inl h) = inl (e ∙ h)
  same-IsSeeded c c' d e (inr h) = inr (e ∙ h)

  -- What holds after a call, whether it returned or threw, and after the rest, holds in the end.
  continue-holds :
      {A B : Type 0} (P : C → Type 0) (r : Result A) (f : A → Io C B) (c : C)
      → P c
      → ((a : A) → r ≡ ok a → P (f a c).1)
      → P (continue r f c).1
  continue-holds P (ok a) f c h k = k a refl
  continue-holds P (throw x) f c h k = h

  pub recover-holds :
      (P : C → Type 0) (r : Result Unit) (c : C) → P c → P (recover r (λ err. pure tt) c).1
  recover-holds P (ok a) c h = h
  recover-holds P (throw x) c h = h

  pub run_ddl_list-IsSeeded :
      (ddls : List String) (c : C) (d : Dictionary)
      → All (λ ddl. (c : C) (t : String) → rows (client.command ddl c).1 t ≡ rows c t) ddls
      → IsSeeded c d
      → IsSeeded (run_ddl_list client ddls c).1 d
  unfolding run_ddl_list
  run_ddl_list-IsSeeded [] c d keeps h = h
  run_ddl_list-IsSeeded (ddl ∷ ddls) c d (keeps, more) h =
      let c' = (client.command ddl c).1 in
      let h' = same-IsSeeded c c' d (keeps c d.table) h in
      continue-holds (λ s. IsSeeded s d) (client.command ddl c).0 (λ _. run_ddl_list client ddls) c'
        h' (λ a e. run_ddl_list-IsSeeded ddls c' d more h')

  insert-IsSeeded :
      (d : Dictionary) (c : C) → rows c d.table ≡ [] → IsSeeded (client.insert d.table d.rows c).1 d
  insert-IsSeeded d c empty = elim (Result-cases (client.insert d.table d.rows c).0) [
    | inl (tt, e) ↦ inr (laws.insert_adds d.table d.rows c e ∙ ap (λ es. es ++ d.rows) empty)
    | inr (x, e) ↦ inl (laws.insert_throws d.table d.rows c x e ∙ empty)
  ]

  pub unfilled : (es : List Entry) → false ≡ is_filled es → es ≡ []
  unfilled [] e = refl
  unfilled (x ∷ es) e = absurd (ground arith)

  -- The insert after a count, into the table itself.
  seed_counted-IsSeeded :
      (b : Bool) (d : Dictionary) (c : C)
      → b ≡ is_filled (rows c d.table)
      → IsSeeded c d
      → IsSeeded ((if b then pure tt else client.insert d.table d.rows) c).1 d
  seed_counted-IsSeeded true d c e h = h
  seed_counted-IsSeeded false d c e h = insert-IsSeeded d c (unfilled (rows c d.table) e)

  -- What a count is worth once it has been made.
  counted-IsSeeded :
      (d : Dictionary) (r : Result (Option String)) (c : C)
      → ((total : Option String)
          → r ≡ ok total
          → is_positive (parse_digits none (or_else total "0")) ≡ is_filled (rows c d.table))
      → IsSeeded c d
      → IsSeeded
          (((λ s. continue r (λ total. pure (parse_digits none (or_else total "0"))) s) >>= λ count.
              if is_positive count then pure tt else client.insert d.table d.rows)
            c).1
          d
  counted-IsSeeded d (ok total) c counts h = seed_counted-IsSeeded _ d c (counts total refl) h
  counted-IsSeeded d (throw x) c counts h = h

  seed_table-IsSeeded :
      (d : Dictionary) (c : C)
      → IsSeeded c d
      → IsSeeded (seed_table_if_empty client d.table d.rows c).1 d
  unfolding seed_table_if_empty fetch_row_count
  seed_table-IsSeeded d c h =
      counted-IsSeeded d (client.total d.table c).0 (client.total d.table c).1
        (λ total e.
          counts-is_filled client laws d.table c total e
          ∙ ap is_filled (sym (laws.total_keeps d.table d.table c)))
        (same-IsSeeded c (client.total d.table c).1 d (laws.total_keeps d.table d.table c) h)

  -- The rest of a seeding after its count.
  abbrev pub after_count : Result (Option String) → String → List Entry → Io C (Unit {0})
  after_count r t es =
      (λ s. continue r (λ total. pure (parse_digits none (or_else total "0"))) s) >>= λ count.
      if is_positive count then pure tt else client.insert t es

  unseeded-rows :
      (b : Bool) (t u : String) (es : List Entry) (c : C)
      → t ≢ u
      → rows ((if b then pure tt else client.insert t es) c).1 u ≡ rows c u
  unseeded-rows true t u es c ne = refl
  unseeded-rows false t u es c ne = laws.insert_keeps t u es c ne

  after_count-rows :
      (t u : String) (es : List Entry) (r : Result (Option String)) (c : C)
      → t ≢ u
      → rows (after_count r t es c).1 u ≡ rows c u
  after_count-rows t u es (ok total) c ne = unseeded-rows _ t u es c ne
  after_count-rows t u es (throw x) c ne = refl

  -- The seeding of another table.
  pub seed_table-rows :
      (t u : String) (es : List Entry) (c : C)
      → t ≢ u
      → rows (seed_table_if_empty client t es c).1 u ≡ rows c u
  unfolding seed_table_if_empty fetch_row_count
  seed_table-rows t u es c ne =
      after_count-rows t u es (client.total t c).0 (client.total t c).1 ne ∙ laws.total_keeps t u c

  pub seed_entry-IsSeeded :
      (d e : Dictionary) (c : C)
      → IsApart d e
      → IsSeeded c d
      → IsSeeded (seed_table_if_empty client e.table e.rows c).1 d
  seed_entry-IsSeeded d e c (inl same) h =
      subst (λ x. IsSeeded (seed_table_if_empty client x.table x.rows c).1 d) (sym same)
        (seed_table-IsSeeded d c h)
  seed_entry-IsSeeded d e c (inr ne) h =
      same-IsSeeded c (seed_table_if_empty client e.table e.rows c).1 d
        (seed_table-rows e.table d.table e.rows c ne) h

  seed_dictionaries-IsSeeded :
      (es : List Dictionary) (d : Dictionary) (c : C)
      → All (IsApart d) es
      → IsSeeded c d
      → IsSeeded (seed_all_dictionaries client es c).1 d
  unfolding seed_all_dictionaries
  seed_dictionaries-IsSeeded [] d c apart h = h
  seed_dictionaries-IsSeeded (e ∷ es) d c (apart, more) h =
      let c' = (seed_table_if_empty client e.table e.rows c).1 in
      let h' = seed_entry-IsSeeded d e c apart h in
      continue-holds (λ s. IsSeeded s d) (seed_table_if_empty client e.table e.rows c).0
        (λ _. seed_all_dictionaries client es) c' h'
        (λ a k. seed_dictionaries-IsSeeded es d c' more h')

  init-IsSeeded :
      (d : Dictionary) (c : C)
      → All (IsApart d) dictionary_tables
      → IsSeeded c d
      → IsSeeded (init_schema_and_seed client c).1 d
  unfolding init_schema_and_seed
  init-IsSeeded d c apart h =
      let ddl = run_ddl_list client stats_ddl c in
      let h' = run_ddl_list-IsSeeded stats_ddl c d laws.ddl_keeps h in
      let seeding = λ (a : Unit {0}). seed_all_dictionaries client dictionary_tables in
      recover-holds (λ s. IsSeeded s d) (continue ddl.0 seeding ddl.1).0
        (continue ddl.0 seeding ddl.1).1
        (continue-holds (λ s. IsSeeded s d) ddl.0 seeding ddl.1 h'
          (λ a k. seed_dictionaries-IsSeeded dictionary_tables d ddl.1 apart h'))

  -- The service starts so many times.
  abbrev pub starts : ℕ → C → C
  starts zero c = c
  starts (suc n) c = starts n (init_schema_and_seed client c).1

  every_dictionary-IsSeeded :
      (ds : List Dictionary) (c : C)
      → All (λ d. All (IsApart d) dictionary_tables) ds
      → All (IsSeeded c) ds
      → All (IsSeeded (init_schema_and_seed client c).1) ds
  every_dictionary-IsSeeded [] c apart h = tt
  every_dictionary-IsSeeded (d ∷ ds) c (apart, more) (h, hs) =
      (init-IsSeeded d c apart h, every_dictionary-IsSeeded ds c more hs)

  -- However often the service starts, and wherever a start fails on the way: each dictionary is empty
  -- or holds exactly its seed, once, where each was so before. What is relied on of ClickHouse is that
  -- the schema's commands and a count keep all rows, that a count is the number of rows in decimal,
  -- and that an insert adds its rows to its table or, where it throws, nothing.
  pub starts-IsSeeded :
      (n : ℕ) (c : C)
      → All (IsSeeded c) dictionary_tables
      → All (IsSeeded (starts n c)) dictionary_tables
  starts-IsSeeded zero c h = h
  starts-IsSeeded (suc n) c h =
      starts-IsSeeded n (init_schema_and_seed client c).1
        (every_dictionary-IsSeeded dictionary_tables c tables-IsApart h)
