-- ===== src/Links/Create.antt =====
-- The creation of a link in apps/api/src/links/links.service.ts: the quota, and the link with its
-- outbox message.
use mikrouli.Common.{
  ℕ, String, ◌≡◌, ◌≢◌, refl, sym, ap, ◌∙◌, inl, inr, Option, none, some, ◌∷◌, arith, leb,
  if◌then◌else◌,
}
use mikrouli.Http.{Exception, Result, ok, throw, monthly_link_limit_exceeded}
use mikrouli.Io.{App, Io}
use mikrouli.Services.{Link, LinkFields, LinkTable, Outbox, UserTable, Runtime}
use mikrouli.Services.Slugs.{FillsColumn, bare}
use mikrouli.Services.Laws.{LinkLaws, link_of}
use mikrouli.Usage.{Limits, count_links_this_month, get_link_limit}
use mikrouli.Links.Retry.{Refused, start, again, retry_on_slug_conflict-Ends}
use mikrouli.Links.{
  retry_on_slug_conflict, resolve_expiry, SlugGenerator, insert_link_with_outbox, try_create,
  create_guest, create,
}

module _ {P R E : Type 0} (table : LinkTable P) (users : UserTable P) (runtime : Runtime E)
    (slugs : SlugGenerator E) (limits : Limits) where
  -- A user who has reached the monthly limit gets a 429, and nothing is done after the count and
  -- the limit have been read; below the limit the creation goes on exactly as that of a guest.
  pub create_quota :
      (url user : String) (expiry : Option ℕ) (w w' w'' : App P R E) (count limit : ℕ)
      → count_links_this_month runtime table user w ≡ (ok count, w')
      → get_link_limit users limits user w' ≡ (ok limit, w'')
      → create table users runtime slugs limits url user expiry w ≡ (
          if leb limit count
          then (throw monthly_link_limit_exceeded, w'')
          else create_guest table users runtime slugs limits url user expiry w'')
  unfolding create create_guest
  create_quota url user expiry w w' w'' count limit counted limited = ground arith

module _ {P : Type 0} (table : LinkTable P) (laws : LinkLaws table) where
  open laws use {row, outbox, clock}

  -- A link was added, with its message and nothing else: no row of a slug that the column tells apart
  -- from the link's has changed.
  pub record Created (url user : String) (p : P) (l : Link) (p' : P) : Type 0 where
    pub was_free : row p l.short_url ≡ none
    pub stored : row p' l.short_url ≡ some l
    pub destination : l.original_url ≡ url
    pub owner : l.user_id ≡ user
    pub announced : outbox p' ≡ (l.short_url, url) ∷ outbox p
    pub others : (t : String) → bare l.short_url ≢ bare t → row p' t ≡ row p t

  -- Neither a row nor a message has changed.
  pub record Unchanged (p p' : P) : Type 0 where
    pub rows : (t : String) → row p' t ≡ row p t
    pub messages : outbox p' ≡ outbox p

  Unchanged-trans : {p p' p'' : P} → Unchanged p p' → Unchanged p' p'' → Unchanged p p''
  Unchanged-trans u v = record {
    rows = λ t. v.rows t ∙ u.rows t;
    messages = v.messages ∙ u.messages;
  }

  Created-after :
      {url user : String} {p p' p'' : P} {l : Link}
      → Unchanged p p'
      → Created url user p' l p''
      → Created url user p l p''
  Created-after {l} u c = record {
    was_free = sym (u.rows l.short_url) ∙ c.was_free;
    stored = c.stored;
    destination = c.destination;
    owner = c.owner;
    announced = rw (← u.messages) c.announced;
    others = λ t ne. c.others t ne ∙ u.rows t;
  }

  abbrev message_of : LinkFields → Outbox
  message_of f = record {
    aggregate_type = "link_created";
    slug = f.short_url;
    original_url = f.original_url;
  }

  insert_link_with_outbox-ok :
      (f : LinkFields) (p : P) {l : Link}
      → FillsColumn f.short_url
      → (insert_link_with_outbox table f p).0 ≡ ok l
      → (row p f.short_url ≡ none)
        × (l ≡ link_of f (clock p))
        × (row (insert_link_with_outbox table f p).1 f.short_url ≡ some l)
        × (outbox (insert_link_with_outbox table f p).1 ≡ (f.short_url, f.original_url) ∷ outbox p)
  unfolding insert_link_with_outbox
  insert_link_with_outbox-ok f p {l} six h =
      let p' = (table.insert f p).1 in
      let p'' = (table.save_outbox (message_of f) p').1 in
      ground (
        arith,
        laws.insert_fresh f p,
        laws.insert_row f p,
        laws.insert_outbox f p,
        laws.save_outbox_lem (message_of f) p',
        laws.save_outbox_keeps (message_of f) f.short_url p',
        laws.find_or_fail_row f.short_url p'' {l = l},
        laws.find_or_fail_keeps f.short_url f.short_url p'',
        laws.find_or_fail_outbox f.short_url p'',
      )

  insert_link_with_outbox-others :
      (f : LinkFields) (t : String) (p : P)
      → bare f.short_url ≢ bare t
      → row (insert_link_with_outbox table f p).1 t ≡ row p t
  unfolding insert_link_with_outbox
  insert_link_with_outbox-others f t p h =
      let p' = (table.insert f p).1 in
      let p'' = (table.save_outbox (message_of f) p').1 in
      ground (
        arith,
        laws.insert_keeps f t p h,
        laws.save_outbox_keeps (message_of f) t p',
        laws.find_or_fail_keeps f.short_url t p'',
      )

  transaction-Created :
      (f : LinkFields) (p : P) {l : Link}
      → FillsColumn f.short_url
      → (table.transaction (insert_link_with_outbox table f) p).0 ≡ ok l
      → Created f.original_url f.user_id p l
          (table.transaction (insert_link_with_outbox table f) p).1
  transaction-Created f p {l} six h =
      let body = insert_link_with_outbox table f in
      let (free, made, stored, sent) = insert_link_with_outbox-ok f p six (laws.commit body p h) in
      rw made (record {
        was_free = free;
        stored = laws.commit_row body f.short_url p h ∙ stored ∙ ap some made;
        destination = refl;
        owner = refl;
        announced = laws.commit_outbox body p h ∙ sent;
        others = λ t ne. laws.commit_row body t p h ∙ insert_link_with_outbox-others f t p ne;
      })

  transaction-Unchanged :
      (f : LinkFields) (p : P) {e : Exception}
      → (table.transaction (insert_link_with_outbox table f) p).0 ≡ throw e
      → Unchanged p (table.transaction (insert_link_with_outbox table f) p).1
  transaction-Unchanged f p h = record {
    rows = λ t. laws.rollback_row (insert_link_with_outbox table f) t p h;
    messages = laws.rollback_outbox (insert_link_with_outbox table f) p h;
  }

module _ {P R E : Type 0} (table : LinkTable P) (laws : LinkLaws table) (users : UserTable P)
    (runtime : Runtime E) (slugs : SlugGenerator E) (limits : Limits) where
  -- A creation either returns a link and has added it, or throws and has added nothing.
  abbrev pub Outcome : String → String → App P R E → Result Link × App P R E → Type 0
  Outcome url user w (ok l, w') = Created table laws url user w.pg l w'.pg
  Outcome url user w (throw e, w') = Unchanged table laws w.pg w'.pg

  module _ (url user : String) (expires_at : ℕ) where
    abbrev attempt : Io (App P R E) Link
    attempt = try_create table users runtime slugs limits url user expires_at

    try_create-Created :
        (w : App P R E) {l : Link}
        → (attempt w).0 ≡ ok l
        → Created table laws url user w.pg l (attempt w).1.pg
    unfolding try_create
    try_create-Created w h = transaction-Created table laws _ w.pg (slugs.generate_fills w.env) h

    try_create-Unchanged :
        (w : App P R E) {e : Exception}
        → (attempt w).0 ≡ throw e
        → Unchanged table laws w.pg (attempt w).1.pg
    unfolding try_create
    try_create-Unchanged w h = transaction-Unchanged table laws _ w.pg h

    Refused-Unchanged :
        {n : ℕ} {w w' : App P R E} → Refused attempt n w w' → Unchanged table laws w.pg w'.pg
    Refused-Unchanged start = record { rows = λ t. refl; messages = refl }
    Refused-Unchanged (again {s = w} e run) =
        Unchanged-trans table laws (try_create-Unchanged w e) (Refused-Unchanged run)

    attempt-Outcome :
        (w w' : App P R E) (r : Result Link)
        → Unchanged table laws w.pg w'.pg
        → (attempt w').0 ≡ r
        → Outcome url user w (r, (attempt w').1)
    attempt-Outcome w w' (ok l) same e = Created-after table laws same (try_create-Created w' e)
    attempt-Outcome w w' (throw x) same e =
        Unchanged-trans table laws same (try_create-Unchanged w' e)

    retry-Outcome :
        (w w' : App P R E)
        → Unchanged table laws w.pg w'.pg
        → Outcome url user w (retry_on_slug_conflict attempt w')
    retry-Outcome w w' same = elim (retry_on_slug_conflict-Ends attempt w') [
      | inl (n, t, lt, run, e, free) ↦ rw e (
          attempt-Outcome w t (attempt t).0
            (Unchanged-trans table laws same (Refused-Unchanged run)) refl)
      | inr (t, run, e) ↦ rw e (Unchanged-trans table laws same (Refused-Unchanged run))
    ]

  -- A guest's creation, through all its retries, either returns a link and has added exactly that
  -- row, under a slug that was free, together with its outbox message, or throws and has added
  -- neither a row nor a message.
  pub create_guest-Outcome :
      (url user : String) (expiry : Option ℕ) (w : App P R E)
      → Outcome url user w (create_guest table users runtime slugs limits url user expiry w)
  unfolding create_guest resolve_expiry
  create_guest-Outcome url user none w =
      retry-Outcome url user _ w _ (record { rows = λ t. refl; messages = refl })
  create_guest-Outcome url user (some at) w =
      retry-Outcome url user at w w (record { rows = λ t. refl; messages = refl })
