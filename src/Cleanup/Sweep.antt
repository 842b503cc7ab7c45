-- ===== src/Cleanup/Sweep.antt =====
-- What a run of apps/api/src/cleanup/cleanup.service.ts does to the table of links.
use mathlib.Core.Path.{subst}
use mikrouli.Common.{
  ℕ, ◌+◌, ◌≤◌, String, none, some, List, [], ◌∷◌, length, All, ◌≡◌, ◌≢◌, sym, ap, ◌∙◌, inl, inr,
  arith, or_else,
}
use mikrouli.Http.{Exception, Result, ok, throw, Result-cases}
use mikrouli.Io.{App}
use mikrouli.Services.{Link, LinkTable, RedisClient, Runtime}
use mikrouli.Services.Slugs.{bare}
use mikrouli.Services.Laws.{LinkLaws, ExpiredBefore}
use mikrouli.Cleanup.{cleanup_batch_size, process_batch, handle_cleanup}
use mikrouli.Cleanup.Batch.{process_batch-keeps, process_batch-returns, process_batch_complete}

some-injective : {A : Type 0} {a b : A} → some a ≡ some b → a ≡ b
some-injective {a = a} p = ap (λ o. or_else o a) p

All-map :
    {A : Type 0} {Q S : A → Type 0} → ((x : A) → Q x → S x) → (xs : List A) → All Q xs → All S xs
All-map f [] _ = tt
All-map f (x ∷ xs) (q, qs) = (f x q, All-map f xs qs)

module _ {P R E : Type 0} (table : LinkTable P) (client : RedisClient R) (runtime : Runtime E)
    (laws : LinkLaws table) where
  open laws use {row}

  -- The batch of a run: what is found at the clock's time.
  abbrev pub batch : App P R E → Result (List Link)
  batch w = (table.find_expired (runtime.now w.env).0 cleanup_batch_size w.pg).0

  pub handle_cleanup-process_batch :
      (w : App P R E) (ls : List Link)
      → batch w ≡ ok ls
      → handle_cleanup table client runtime w
        ≡ process_batch table client runtime ls 0 (record w {
          pg = (table.find_expired (runtime.now w.env).0 cleanup_batch_size w.pg).1;
          env = (runtime.now w.env).1;
        })
  unfolding handle_cleanup
  handle_cleanup-process_batch w ls e = ground arith

  handle_cleanup-failed :
      (w : App P R E) (t : String) (x : Exception)
      → batch w ≡ throw x
      → row (handle_cleanup table client runtime w).1.pg t ≡ row w.pg t
  unfolding handle_cleanup
  handle_cleanup-failed w t x e =
      ground (arith, laws.find_expired_keeps (runtime.now w.env).0 1000 t w.pg)

  -- A link that has not expired at the time of a run keeps its row, whatever fails on the way.
  pub handle_cleanup-keeps :
      (w : App P R E) (t : String) (l : Link)
      → row w.pg t ≡ some l
      → ¬ ExpiredBefore (runtime.now w.env).0 l
      → row (handle_cleanup table client runtime w).1.pg t ≡ some l
  handle_cleanup-keeps w t l stored live =
      let now = (runtime.now w.env).0 in
      let other : (k : Link)
          → (r : Link) × (row w.pg k.short_url ≡ some r)
            × (r.short_url ≡ k.short_url)
            × ExpiredBefore now r
          → bare k.short_url ≢ bare t =
        λ k (r, found, _, expired) d. live (
          subst (ExpiredBefore now)
            (some-injective (sym found ∙ laws.row_same k.short_url t w.pg d ∙ stored)) expired) in
      elim (Result-cases (batch w)) [
        | inl (ls, e) ↦
            ap (λ (r : Result ℕ × App P R E). row r.1.pg t) (handle_cleanup-process_batch w ls e)
            ∙ process_batch-keeps table client runtime laws ls 0 _ t
                (All-map other ls (laws.find_expired_row now 1000 w.pg e))
            ∙ laws.find_expired_keeps now 1000 t w.pg
            ∙ stored
        | inr (x, e) ↦ handle_cleanup-failed w t x e ∙ stored
      ]

  -- Once the batch has been read, a run goes to its end and returns a number that is at most 1000.
  pub handle_cleanup-returns :
      (w : App P R E) (ls : List Link)
      → batch w ≡ ok ls
      → (n : ℕ) × ((handle_cleanup table client runtime w).0 ≡ ok n) × (n ≤ cleanup_batch_size)
  handle_cleanup-returns w ls e =
      let (n, r, bound) = process_batch-returns table client runtime laws ls 0 _ in
      (
        n,
        ap (λ (r : Result ℕ × App P R E). r.0) (handle_cleanup-process_batch w ls e) ∙ r,
        omega (arith, bound, laws.find_expired_length (runtime.now w.env).0 1000 w.pg e),
      )

  -- Where a run returns the size of its batch, no row of the batch is left.
  pub handle_cleanup_complete :
      (w : App P R E) (ls : List Link)
      → batch w ≡ ok ls
      → (handle_cleanup table client runtime w).0 ≡ ok (length ls)
      → All (λ (l : Link). row (handle_cleanup table client runtime w).1.pg l.short_url ≡ none) ls
  handle_cleanup_complete w ls e h =
      let same = handle_cleanup-process_batch w ls e in
      let size : length ls ≡ 0 + length ls = omega arith in
      subst (λ (r : Result ℕ × App P R E). All (λ (k : Link). row r.1.pg k.short_url ≡ none) ls)
        (sym same)
        (process_batch_complete table client runtime laws ls 0 _
          (ap (λ (r : Result ℕ × App P R E). r.0) (sym same) ∙ h ∙ ap ok size))
