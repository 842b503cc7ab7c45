-- ===== src/Cleanup/Batch.antt =====
-- What the loop over a batch in apps/api/src/cleanup/cleanup.service.ts does to the table.
use mathlib.Core.Path.{subst}
use mikrouli.Common.{
  ℕ, suc, ◌+◌, ◌≤◌, String, true, false, none, List, [], ◌∷◌, length, All, ◌≡◌, ◌≢◌, refl, sym, ap,
  ◌∙◌, ◌⊎◌, inl, inr, arith, str_eq, eq_iff, Bool-cases,
}
use mikrouli.Http.{Result, ok, Result-cases}
use mikrouli.Io.{App}
use mikrouli.Services.{Link, LinkTable, RedisClient, Runtime}
use mikrouli.Services.Slugs.{bare}
use mikrouli.Services.Laws.{LinkLaws}
use mikrouli.Cache
use mikrouli.Redis.{safe_del}
use mikrouli.Cleanup.{delete_one_safely, process_batch}

module _ {P R E : Type 0} (table : LinkTable P) (client : RedisClient R) (runtime : Runtime E)
    (laws : LinkLaws table) where
  open laws use {row}

  -- A row is kept or is gone.
  abbrev pub Thinned : P → P → String → Type 0
  Thinned p p' t = (row p' t ≡ row p t) ⊎ (row p' t ≡ none)

  pub delete_one_safely-pg :
      (l : Link) (w : App P R E)
      → (delete_one_safely table client runtime l w).1.pg ≡ (table.delete l.short_url w.pg).1
  unfolding delete_one_safely Cache.del safe_del
  delete_one_safely-pg l w = elim (Result-cases (table.delete l.short_url w.pg).0) [
    | inl (done, e) ↦ elim (Result-cases (client.del (Cache.cache_key l.short_url) w.redis).0) [
      | inl (done', e') ↦ ground arith
      | inr (x, e') ↦ ground arith
    ]
    | inr (x, e) ↦ ground arith
  ]

  -- It never throws, and says whether the row has been deleted.
  delete_one_safely-returns :
      (l : Link) (w : App P R E)
      → (((delete_one_safely table client runtime l w).0 ≡ ok true)
          × (row (table.delete l.short_url w.pg).1 l.short_url ≡ none))
        ⊎ ((delete_one_safely table client runtime l w).0 ≡ ok false)
  unfolding delete_one_safely Cache.del safe_del
  delete_one_safely-returns l w = elim (Result-cases (table.delete l.short_url w.pg).0) [
    | inl (done, e) ↦ elim (Result-cases (client.del (Cache.cache_key l.short_url) w.redis).0) [
      | inl (done', e') ↦ inl (ground arith, laws.delete_row l.short_url w.pg e)
      | inr (x, e') ↦ inl (ground arith, laws.delete_row l.short_url w.pg e)
    ]
    | inr (x, e) ↦ inr (ground arith)
  ]

  delete_one_safely-keeps :
      (l : Link) (w : App P R E) (t : String)
      → bare l.short_url ≢ bare t
      → row (delete_one_safely table client runtime l w).1.pg t ≡ row w.pg t
  delete_one_safely-keeps l w t ne =
      ap (λ p. row p t) (delete_one_safely-pg l w) ∙ laws.delete_keeps l.short_url t w.pg ne

  delete_one_safely-Thinned :
      (l : Link) (w : App P R E) (t : String)
      → Thinned w.pg (delete_one_safely table client runtime l w).1.pg t
  delete_one_safely-Thinned l w t = elim (Bool-cases (str_eq (bare l.short_url) (bare t))) [
    | inl e ↦
        let p = (delete_one_safely table client runtime l w).1.pg in
        let alike = (eq_iff (bare l.short_url) (bare t)).0 e in
        let before = laws.row_same l.short_url t w.pg alike in
        let after = laws.row_same l.short_url t p alike in
        let either =
          subst (λ q. (row q l.short_url ≡ row w.pg l.short_url) ⊎ (row q l.short_url ≡ none))
            (sym (delete_one_safely-pg l w)) (laws.delete_either l.short_url w.pg) in
        elim either [
          | inl kept ↦ inl (sym after ∙ kept ∙ before)
          | inr gone ↦ inr (sym after ∙ gone)
        ]
    | inr e ↦
        inl
          (delete_one_safely-keeps l w t (λ d. ground (arith, eq_iff (bare l.short_url) (bare t))))
  ]

  abbrev pub after_one : Link → App P R E → App P R E
  after_one l w = (delete_one_safely table client runtime l w).1

  -- What happens to a list is what happens to its rest after its first link, which is counted where
  -- it has been deleted.
  pub process_batch_step :
      (l : Link) (ls : List Link) (count : ℕ) (w : App P R E)
      → (n : ℕ) × (process_batch table client runtime (l ∷ ls) count w
          ≡ process_batch table client runtime ls n (after_one l w))
        × (((n ≡ suc count) × (row (after_one l w).pg l.short_url ≡ none)) ⊎ (n ≡ count))
  unfolding process_batch
  process_batch_step l ls count w = elim (delete_one_safely-returns l w) [
    | inl (e, gone) ↦ (
      suc count,
      ground arith,
      inl (refl, ap (λ p. row p l.short_url) (delete_one_safely-pg l w) ∙ gone),
    )
    | inr e ↦ (count, ground arith, inr refl)
  ]

  Thinned-trans : (p q r : P) (t : String) → Thinned p q t → Thinned q r t → Thinned p r t
  Thinned-trans p q r t (inl a) (inl b) = inl (b ∙ a)
  Thinned-trans p q r t (inr a) (inl b) = inr (b ∙ a)
  Thinned-trans p q r t a (inr b) = inr b

  pub stays_gone : (p q : P) (t : String) → row p t ≡ none → Thinned p q t → row q t ≡ none
  stays_gone p q t gone (inl kept) = kept ∙ gone
  stays_gone p q t gone (inr none_e) = none_e

  pub process_batch-Thinned :
      (ls : List Link) (count : ℕ) (w : App P R E) (t : String)
      → Thinned w.pg (process_batch table client runtime ls count w).1.pg t
  unfolding process_batch
  process_batch-Thinned [] count w t = inl refl
  process_batch-Thinned (l ∷ ls) count w t =
      let (n, e, _) = process_batch_step l ls count w in
      subst (λ (r : Result ℕ × App P R E). Thinned w.pg r.1.pg t) (sym e)
        (Thinned-trans w.pg (after_one l w).pg _ t (delete_one_safely-Thinned l w t)
          (process_batch-Thinned ls n (after_one l w) t))

  pub process_batch-keeps :
      (ls : List Link) (count : ℕ) (w : App P R E) (t : String)
      → All (λ (l : Link). bare l.short_url ≢ bare t) ls
      → row (process_batch table client runtime ls count w).1.pg t ≡ row w.pg t
  unfolding process_batch
  process_batch-keeps [] count w t _ = refl
  process_batch-keeps (l ∷ ls) count w t (ne, others) =
      let (n, e, _) = process_batch_step l ls count w in
      ap (λ (r : Result ℕ × App P R E). row r.1.pg t) e
      ∙ process_batch-keeps ls n (after_one l w) t others
      ∙ delete_one_safely-keeps l w t ne

  -- A batch is always gone through to its end, and counts at most its links.
  pub process_batch-returns :
      (ls : List Link) (count : ℕ) (w : App P R E)
      → (n : ℕ) × ((process_batch table client runtime ls count w).0 ≡ ok n)
        × (n ≤ count + length ls)
  unfolding process_batch
  process_batch-returns [] count w = (count, refl, omega arith)
  process_batch-returns (l ∷ ls) count w =
      let (m, e, counted) = process_batch_step l ls count w in
      let (n, r, bound) = process_batch-returns ls m (after_one l w) in
      (n, ap (λ (r : Result ℕ × App P R E). r.0) e ∙ r, ground arith)

  -- Where as many were counted as there are, each is gone.
  pub process_batch_complete :
      (ls : List Link) (count : ℕ) (w : App P R E)
      → (process_batch table client runtime ls count w).0 ≡ ok (count + length ls)
      → All
          (λ (l : Link).
            row (process_batch table client runtime ls count w).1.pg l.short_url ≡ none)
          ls
  process_batch_complete [] count w h = tt
  process_batch_complete (l ∷ ls) count w h =
      let (n, e, counted) = process_batch_step l ls count w in
      let rest = process_batch table client runtime ls n (after_one l w) in
      let h' : rest.0 ≡ ok (count + length (l ∷ ls)) =
        ap (λ (r : Result ℕ × App P R E). r.0) (sym e) ∙ h in
      subst
        (λ (r : Result ℕ × App P R E). All (λ (k : Link). row r.1.pg k.short_url ≡ none) (l ∷ ls))
        (sym e)
        (elim counted [
          | inl (n_e, gone) ↦ (
            stays_gone (after_one l w).pg rest.1.pg l.short_url gone
                (process_batch-Thinned ls n (after_one l w) l.short_url),
            process_batch_complete ls n (after_one l w) (ground arith),
          )
          | inr n_e ↦ absurd (ground (arith, process_batch-returns ls n (after_one l w)))
        ])
