-- ===== src/Services/Memory/Links/Laws.antt =====
-- The tables `links` and `outbox` held in memory keep the laws.
use mathlib.Core.Path.{subst}
use mikrouli.Common.{
  ◌≤◌, List, All, length, Option, none, some, ◌≡◌, ◌≢◌, refl, sym, ap, arith, inr,
}
use mikrouli.Http.{Exception, Result, ok, throw}
use mikrouli.Services.{Link}
use mikrouli.Services.Slugs.{bare}
use mikrouli.Services.Laws.{LinkLaws, LinkAtomic}
use mikrouli.Services.Memory.{Database, set_at-same, set_at-other}
use mikrouli.Services.Memory.Links.{
  links, row, with_slug, settle, found_or_fail, insert_where-row, insert_where-keeps,
  insert_where-outbox, update_where-row, update_where-keeps, row-slug, row-same, row-bare,
  ok-injective, All-take, length-take_le, expired_rows, expired_rows-Stale, Stale,
}

pub found_or_fail-ok : (o : Option Link) {l : Link} → found_or_fail o ≡ ok l → o ≡ some l
found_or_fail-ok none h = absurd (ground arith)
found_or_fail-ok (some l) h = ap some (ok-injective h)

pub settle-ok :
    (r : Result Link) (p' p : Database) (l : Link)
    → (settle r p' p).0 ≡ ok l
    → (r ≡ ok l) × ((settle r p' p).1 ≡ p')
settle-ok (ok l') p' p l h = (h, refl)
settle-ok (throw e) p' p l h = absurd (ground arith)

pub settle-throw :
    (r : Result Link) (p' p : Database) (e : Exception)
    → (settle r p' p).0 ≡ throw e
    → (settle r p' p).1 ≡ p
settle-throw (ok l') p' p e h = absurd (ground arith)
settle-throw (throw e') p' p e h = refl

pub ok-ne-throw : {A : Type 0} (a : A) (e : Exception) → ok a ≢ throw e
ok-ne-throw a e h = ground arith

abbrev pub links-laws : LinkLaws links
links-laws = record {
  row = row;
  outbox = λ p. p.outbox;
  clock = λ p. p.clock;
  insert_fresh = λ f p h. (insert_where-row (row p f.short_url) f p h).0;
  insert_taken = λ f p {l} e h. ground (arith, insert_where-row (row p f.short_url) f p h);
  insert_row = λ f p six h. (insert_where-row (row p f.short_url) f p h).1 six;
  insert_keeps = λ f s p ne. insert_where-keeps (row p f.short_url) f s p ne;
  find_one_row = λ s p {o} h. sym (ok-injective h);
  find_one_keeps = λ s t p. refl;
  row_same = row-same;
  row_fills = λ s p {l} h. (row-bare s p l h).1;
  row_slug = λ s p {l} six h. row-slug s p l six h;
  delete_row = λ s p h. ap (with_slug (bare s)) (set_at-same (bare s) none p.links);
  delete_keeps =
      λ s t p ne. ap (with_slug (bare t)) (set_at-other (bare s) none p.links (bare t) ne);
  delete_either = λ s p. inr (ap (with_slug (bare s)) (set_at-same (bare s) none p.links));
  find_expired_row = λ now n p {ls} h.
      subst (λ xs. All (Stale p now) xs) (ok-injective h)
        (All-take (Stale p now) n (expired_rows p now p.slugs) (expired_rows-Stale p now p.slugs));
  find_expired_length = λ now n p {ls} h.
      subst (λ (xs : List Link). length xs ≤ n) (ok-injective h)
        (length-take_le n (expired_rows p now p.slugs));
  find_expired_keeps = λ now n t p. refl;
  update_row = λ s u url p {l} h d e.
      update_where-row (row p s) s u url p l h (row-bare s p l h).0 (row-bare s p l h).1 d;
  update_keeps = λ s u url t p ne. update_where-keeps (row p s) s u url t p ne;
  find_or_fail_row = λ s p {l} h. found_or_fail-ok (row p s) h;
  find_or_fail_keeps = λ s t p. refl;
  find_or_fail_outbox = λ s p. refl;
  insert_outbox = λ f p. insert_where-outbox (row p f.short_url) f p;
  save_outbox_lem = λ o p h. refl;
  save_outbox_keeps = λ o t p. refl;
  commit = λ m p {l} h. (settle-ok (m p).0 (m p).1 p l h).0;
  commit_row = λ m t p {l} h. ap (λ q. row q t) (settle-ok (m p).0 (m p).1 p l h).1;
  commit_outbox = λ m p {l} h. ap (λ (q : Database). q.outbox) (settle-ok (m p).0 (m p).1 p l h).1;
  rollback_row = λ m t p {e} h. ap (λ q. row q t) (settle-throw (m p).0 (m p).1 p e h);
  rollback_outbox =
      λ m p {e} h. ap (λ (q : Database). q.outbox) (settle-throw (m p).0 (m p).1 p e h);
  count_keeps = λ u a b t p. refl;
}

abbrev pub links-atomic : LinkAtomic links links-laws
links-atomic = record {
  delete_failed = λ s p {e} h. absurd (ok-ne-throw tt e h);
  update_failed = λ s u url p {e} h. absurd (ok-ne-throw tt e h);
}
