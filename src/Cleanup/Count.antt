-- ===== src/Cleanup/Count.antt =====
-- What the number stands for that a run of apps/api/src/cleanup/cleanup.service.ts returns.
use mathlib.Core.Path.{subst}
use mikrouli.Common.{
  ℕ, suc, ◌+◌, ◌≤◌, String, none, some, is_some, List, [], ◌∷◌, length, All, ◌≡◌, ◌≢◌, refl, sym,
  ap, ◌∙◌, ◌⊎◌, inl, inr, arith, if◌then◌else◌,
}
use mikrouli.Http.{Result, ok, Result-cases}
use mikrouli.Io.{App}
use mikrouli.Services.{Link, LinkTable, RedisClient, Runtime}
use mikrouli.Services.Slugs.{bare}
use mikrouli.Services.Laws.{LinkLaws, LinkAtomic, ExpiredBefore}
use mikrouli.Cache
use mikrouli.Redis.{safe_del}
use mikrouli.Cleanup.{cleanup_batch_size, delete_one_safely, process_batch, handle_cleanup}
use mikrouli.Cleanup.Batch.{
  after_one, delete_one_safely-pg, process_batch-keeps, process_batch-Thinned, stays_gone,
}
use mikrouli.Cleanup.Sweep.{batch, handle_cleanup-process_batch}

-- The slugs of a list are different ones to the column.
abbrev pub AreApart : List Link → Type 0
AreApart [] = Unit
AreApart (l ∷ ls) = All (λ (k : Link). bare k.short_url ≢ bare l.short_url) ls × AreApart ls

module _ {P R E : Type 0} (table : LinkTable P) (client : RedisClient R) (runtime : Runtime E)
    (laws : LinkLaws table) (atomic : LinkAtomic table laws) where
  open laws use {row}

  -- How many links of a list have no row.
  abbrev pub gone : P → List Link → ℕ
  gone p [] = 0
  gone p (l ∷ ls) = let rest = gone p ls in if is_some (row p l.short_url) then rest else suc rest

  abbrev pub AreStored : P → List Link → Type 0
  AreStored p ls = All (λ (l : Link). (k : Link) × (row p l.short_url ≡ some k)) ls

  -- A link is counted and its row gone, or it is not counted and its row as before.
  process_batch_counted :
      (l : Link) (ls : List Link) (count : ℕ) (w : App P R E)
      → (n : ℕ) × (process_batch table client runtime (l ∷ ls) count w
          ≡ process_batch table client runtime ls n (after_one table client runtime laws l w))
        × (((n ≡ suc count) × (row (after_one table client runtime laws l w).pg l.short_url ≡ none))
            ⊎ ((n ≡ count)
                × (row (after_one table client runtime laws l w).pg l.short_url
                    ≡ row w.pg l.short_url)))
  unfolding process_batch delete_one_safely Cache.del safe_del
  process_batch_counted l ls count w = elim (Result-cases (table.delete l.short_url w.pg).0) [
    | inl (done, e) ↦ elim (Result-cases (client.del (Cache.cache_key l.short_url) w.redis).0) [
      | inl (done', e') ↦
          (suc count, ground arith, inl (refl, ground (arith, laws.delete_row l.short_url w.pg e)))
      | inr (x, e') ↦
          (suc count, ground arith, inl (refl, ground (arith, laws.delete_row l.short_url w.pg e)))
    ]
    | inr (x, e) ↦
        (count, ground arith, inr (refl, ground (arith, atomic.delete_failed l.short_url w.pg e)))
  ]

  after_one-AreStored :
      (l : Link) (ls : List Link) (w : App P R E)
      → All (λ (k : Link). bare k.short_url ≢ bare l.short_url) ls
      → AreStored w.pg ls
      → AreStored (after_one table client runtime laws l w).pg ls
  after_one-AreStored l [] w apart stored = tt
  after_one-AreStored l (k ∷ ks) w (ne, apart) ((s, stored), more) = (
    (
      s,
      ap (λ p. row p k.short_url) (delete_one_safely-pg table client runtime laws l w)
          ∙ laws.delete_keeps l.short_url k.short_url w.pg (λ e. ne (sym e))
          ∙ stored,
    ),
    after_one-AreStored l ks w apart more,
  )

  gone-none :
      (p : P) (l : Link) (ls : List Link)
      → row p l.short_url ≡ none
      → gone p (l ∷ ls) ≡ suc (gone p ls)
  gone-none p l ls e = ground arith

  gone-some :
      (p : P) (l k : Link) (ls : List Link)
      → row p l.short_url ≡ some k
      → gone p (l ∷ ls) ≡ gone p ls
  gone-some p l k ls e = ground arith

  process_batch-gone :
      (ls : List Link) (count : ℕ) (w : App P R E)
      → AreStored w.pg ls
      → AreApart ls
      → (process_batch table client runtime ls count w).0
        ≡ ok (count + gone (process_batch table client runtime ls count w).1.pg ls)
  unfolding process_batch
  process_batch-gone [] count w stored apart = ap ok (omega arith)
  process_batch-gone (l ∷ ls) count w ((s, stored), more) (others, apart) =
      let (n, e, counted) = process_batch_counted l ls count w in
      let w' = after_one table client runtime laws l w in
      let rest = process_batch table client runtime ls n w' in
      let ih = process_batch-gone ls n w' (after_one-AreStored l ls w others more) apart in
      subst (λ (r : Result ℕ × App P R E). r.0 ≡ ok (count + gone r.1.pg (l ∷ ls))) (sym e)
        (elim counted [
          | inl (n_e, deleted) ↦
              let left = gone-none rest.1.pg l ls (
                stays_gone table client runtime laws w'.pg rest.1.pg l.short_url deleted
                  (process_batch-Thinned table client runtime laws ls n w' l.short_url)) in
              ih ∙ ap ok (omega (arith, left, n_e))
          | inr (n_e, kept) ↦
              let left = gone-some rest.1.pg l s ls (
                process_batch-keeps table client runtime laws ls n w' l.short_url others
                ∙ kept
                ∙ stored) in
              ih ∙ ap ok (omega (arith, left, n_e))
        ])

  gone-le-length : (p : P) (ls : List Link) → gone p ls ≤ length ls
  gone-le-length p [] = omega arith
  gone-le-length p (l ∷ ls) = ground (arith, gone-le-length p ls)

  found-AreStored :
      (p p' : P) (now : ℕ) (ls : List Link)
      → ((t : String) → row p' t ≡ row p t)
      → All
          (λ (l : Link).
            (k : Link) × (row p l.short_url ≡ some k)
            × (k.short_url ≡ l.short_url)
            × ExpiredBefore now k)
          ls
      → AreStored p' ls
  found-AreStored p p' now [] rows h = tt
  found-AreStored p p' now (l ∷ ls) rows ((k, stored, _, _), more) =
      ((k, rows l.short_url ∙ stored), found-AreStored p p' now ls rows more)

  -- A run that has read its batch, of different slugs as a primary key has it, goes to its end
  -- whatever fails on the way, where a DELETE that throws has changed no row: it returns exactly how
  -- many links of the batch, all of which had rows, have none in the end, and at most 1000.
  pub handle_cleanup-gone :
      (w : App P R E) (ls : List Link)
      → batch table client runtime laws w ≡ ok ls
      → AreApart ls
      → AreStored w.pg ls
        × ((handle_cleanup table client runtime w).0
            ≡ ok (gone (handle_cleanup table client runtime w).1.pg ls))
        × (gone (handle_cleanup table client runtime w).1.pg ls ≤ 1000)
  handle_cleanup-gone w ls e apart =
      let now = (runtime.now w.env).0 in
      let p' = (table.find_expired now cleanup_batch_size w.pg).1 in
      let found = laws.find_expired_row now cleanup_batch_size w.pg e in
      let counts =
        process_batch-gone ls 0 (record w { pg = p'; env = (runtime.now w.env).1 })
          (found-AreStored w.pg p' now ls
            (λ t. laws.find_expired_keeps now cleanup_batch_size t w.pg) found)
          apart in
      let same = handle_cleanup-process_batch table client runtime laws w ls e in
      (
        found-AreStored w.pg w.pg now ls (λ t. refl) found,
        subst (λ (r : Result ℕ × App P R E). r.0 ≡ ok (gone r.1.pg ls)) (sym same)
            (counts ∙ ap ok (omega arith)),
        omega (
          arith,
          gone-le-length (handle_cleanup table client runtime w).1.pg ls,
          laws.find_expired_length now cleanup_batch_size w.pg e,
        ),
      )
