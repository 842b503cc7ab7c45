-- ===== src/ClickHouse/Filled.antt =====
-- A start of apps/api/src/clickhouse/clickhouse.service.ts that goes through fills the dictionaries.
use mathlib.Core.Path.{subst}
use mikrouli.Common.{
  ℕ, String, Bool, true, false, Option, none, List, [], ◌∷◌, ◌++◌, All, or_else, ◌≡◌, inl, inr,
  refl, sym, ap, ◌∙◌, arith, if◌then◌else◌,
}
use mikrouli.Http.{Result, ok, throw}
use mikrouli.Io.{Io, pure, continue, ◌>>◌}
use mikrouli.ClickHouse.{
  Dictionary, ClickHouseClient, stats_ddl, dictionary_tables, parse_digits, is_positive,
  run_ddl_list, fetch_row_count, seed_table_if_empty, seed_all_dictionaries, init_schema_and_seed,
}
use mikrouli.ClickHouse.Laws.{counts-is_filled, ClickHouseLaws, is_filled, IsApart, tables-IsApart}
use mikrouli.ClickHouse.Seeding.{
  after_count, IsSeeded, unfilled, same-IsSeeded, seed_table-rows, seed_entry-IsSeeded,
  run_ddl_list-IsSeeded, recover-holds, starts, starts-IsSeeded,
}

-- A dictionary of a list.
data Among (d : Dictionary) : List Dictionary → Type 0 where
  here : {es : List Dictionary} → Among d (d ∷ es)
  there : {e : Dictionary} {es : List Dictionary} → Among d es → Among d (e ∷ es)

module _ {C : Type 0} (client : ClickHouseClient C) (laws : ClickHouseLaws client) where
  open laws use {rows}

  abbrev pub IsFull : C → Dictionary → Type 0
  IsFull c d = rows c d.table ≡ d.rows

  -- Where a call and its rest have returned, what the rest makes of the call's result holds.
  continue-returned :
      {Q : Type 0} (P : C → Type 0) (r : Result Unit) (m : Io C Unit) (c : C)
      → (r ≡ ok tt → Q)
      → (Q → (m c).0 ≡ ok tt → P (m c).1)
      → (continue r (λ _. m) c).0 ≡ ok tt
      → P (continue r (λ _. m) c).1
  continue-returned P (ok tt) m c first rest k = rest (first refl) k
  continue-returned P (throw x) m c first rest k = absurd (ground arith)

  seed_counted-IsFull :
      (b : Bool) (d : Dictionary) (c : C)
      → b ≡ is_filled (rows c d.table)
      → IsSeeded client laws c d
      → ((if b then pure tt else client.insert d.table d.rows) c).0 ≡ ok tt
      → IsFull ((if b then pure tt else client.insert d.table d.rows) c).1 d
  seed_counted-IsFull true d c e (inl empty) k = absurd (ground (arith, e ∙ ap is_filled empty))
  seed_counted-IsFull true d c e (inr full) k = full
  seed_counted-IsFull false d c e h k =
      laws.insert_adds d.table d.rows c k
      ∙ ap (λ es. es ++ d.rows) (unfilled client laws (rows c d.table) e)

  counted-IsFull :
      (d : Dictionary) (r : Result (Option String)) (c : C)
      → ((total : Option String)
          → r ≡ ok total
          → is_positive (parse_digits none (or_else total "0")) ≡ is_filled (rows c d.table))
      → IsSeeded client laws c d
      → (after_count client laws r d.table d.rows c).0 ≡ ok tt
      → IsFull (after_count client laws r d.table d.rows c).1 d
  counted-IsFull d (ok total) c counts h k = seed_counted-IsFull _ d c (counts total refl) h k
  counted-IsFull d (throw x) c counts h k = absurd (ground arith)

  seed_table-IsFull :
      (d : Dictionary) (c : C)
      → IsSeeded client laws c d
      → (seed_table_if_empty client d.table d.rows c).0 ≡ ok tt
      → IsFull (seed_table_if_empty client d.table d.rows c).1 d
  unfolding seed_table_if_empty fetch_row_count
  seed_table-IsFull d c h k =
      counted-IsFull d (client.total d.table c).0 (client.total d.table c).1
        (λ total e.
          counts-is_filled client laws d.table c total e
          ∙ ap is_filled (sym (laws.total_keeps d.table d.table c)))
        (same-IsSeeded client laws c (client.total d.table c).1 d
          (laws.total_keeps d.table d.table c) h)
        k

  seed_entry-IsFull :
      (d e : Dictionary) (c : C)
      → IsApart d e
      → IsFull c d
      → (seed_table_if_empty client e.table e.rows c).0 ≡ ok tt
      → IsFull (seed_table_if_empty client e.table e.rows c).1 d
  seed_entry-IsFull d e c (inl same) h k =
      subst
        (λ x.
          (seed_table_if_empty client x.table x.rows c).0 ≡ ok tt
          → IsFull (seed_table_if_empty client x.table x.rows c).1 d)
        (sym same) (seed_table-IsFull d c (inr h)) k
  seed_entry-IsFull d e c (inr ne) h k = seed_table-rows client laws e.table d.table e.rows c ne ∙ h

  -- The rest of the list leaves a filled dictionary.
  seed_dictionaries-keeps :
      (es : List Dictionary) (d : Dictionary) (c : C)
      → All (IsApart d) es
      → IsFull c d
      → (seed_all_dictionaries client es c).0 ≡ ok tt
      → IsFull (seed_all_dictionaries client es c).1 d
  unfolding seed_all_dictionaries
  seed_dictionaries-keeps [] d c apart h k = h
  seed_dictionaries-keeps (e ∷ es) d c (apart, more) h k =
      continue-returned (λ s. IsFull s d) (seed_table_if_empty client e.table e.rows c).0
        (seed_all_dictionaries client es) (seed_table_if_empty client e.table e.rows c).1
        (seed_entry-IsFull d e c apart h)
        (seed_dictionaries-keeps es d (seed_table_if_empty client e.table e.rows c).1 more) k

  seed_dictionaries-IsFull :
      (d : Dictionary) (es : List Dictionary) (c : C)
      → Among d es
      → All (IsApart d) es
      → IsSeeded client laws c d
      → (seed_all_dictionaries client es c).0 ≡ ok tt
      → IsFull (seed_all_dictionaries client es c).1 d
  unfolding seed_all_dictionaries
  seed_dictionaries-IsFull d es c (here {es = rest}) (apart, more) h k =
      continue-returned (λ s. IsFull s d) (seed_table_if_empty client d.table d.rows c).0
        (seed_all_dictionaries client rest) (seed_table_if_empty client d.table d.rows c).1
        (seed_table-IsFull d c h)
        (seed_dictionaries-keeps rest d (seed_table_if_empty client d.table d.rows c).1 more) k
  seed_dictionaries-IsFull d es c (there {e} {es = rest} among) (apart, more) h k =
      continue-returned (λ s. IsFull s d) (seed_table_if_empty client e.table e.rows c).0
        (seed_all_dictionaries client rest) (seed_table_if_empty client e.table e.rows c).1
        (λ _. seed_entry-IsSeeded client laws d e c apart h)
        (λ h'.
          seed_dictionaries-IsFull d rest (seed_table_if_empty client e.table e.rows c).1 among more
            h')
        k

  every_dictionary-IsFull :
      (ds : List Dictionary) (c : C)
      → All (λ d. Among d dictionary_tables) ds
      → All (λ d. All (IsApart d) dictionary_tables) ds
      → All (IsSeeded client laws c) ds
      → (seed_all_dictionaries client dictionary_tables c).0 ≡ ok tt
      → All (IsFull (seed_all_dictionaries client dictionary_tables c).1) ds
  every_dictionary-IsFull [] c among apart h k = tt
  every_dictionary-IsFull (d ∷ ds) c (a, among) (b, apart) (h, hs) k = (
    seed_dictionaries-IsFull d dictionary_tables c a b h k,
    every_dictionary-IsFull ds c among apart hs k,
  )

  seed_all_dictionaries-IsFull :
      (c : C)
      → All (IsSeeded client laws c) dictionary_tables
      → (seed_all_dictionaries client dictionary_tables c).0 ≡ ok tt
      → All (IsFull (seed_all_dictionaries client dictionary_tables c).1) dictionary_tables
  seed_all_dictionaries-IsFull c =
      every_dictionary-IsFull dictionary_tables c
        (here, (there here, (there (there here), (there (there (there here)), tt)))) tables-IsApart

  ddl-IsSeeded :
      (ds : List Dictionary) (c : C)
      → All (IsSeeded client laws c) ds
      → All (IsSeeded client laws (run_ddl_list client stats_ddl c).1) ds
  ddl-IsSeeded [] c h = tt
  ddl-IsSeeded (d ∷ ds) c (h, hs) =
      (run_ddl_list-IsSeeded client laws stats_ddl c d laws.ddl_keeps h, ddl-IsSeeded ds c hs)

  -- The service has started so many times, each start failing or not at any call, from dictionaries
  -- that were each empty or held exactly their seed. A start of which no call then throws leaves every
  -- dictionary with exactly its seed, once. Of ClickHouse it is relied on that the schema's commands
  -- and a count keep all rows, that a count is the number of rows in decimal, and that an insert adds
  -- its rows to its table or, where it throws, nothing.
  pub init_schema_and_seed-IsFull :
      (n : ℕ) (c : C)
      → All (IsSeeded client laws c) dictionary_tables
      → ((run_ddl_list client stats_ddl >> seed_all_dictionaries client dictionary_tables)
          (starts client laws n c)).0
        ≡ ok tt
      → All (IsFull (init_schema_and_seed client (starts client laws n c)).1) dictionary_tables
  unfolding init_schema_and_seed
  init_schema_and_seed-IsFull n c h k =
      let s = starts client laws n c in
      let ddl = run_ddl_list client stats_ddl s in
      let seeding = seed_all_dictionaries client dictionary_tables in
      let Full : C → Type 0 = λ s. All (IsFull s) dictionary_tables in
      recover-holds client laws Full (continue ddl.0 (λ _. seeding) ddl.1).0
        (continue ddl.0 (λ _. seeding) ddl.1).1
        (continue-returned Full ddl.0 seeding ddl.1
          (λ _. ddl-IsSeeded dictionary_tables s (starts-IsSeeded client laws n c h))
          (seed_all_dictionaries-IsFull ddl.1) k)
