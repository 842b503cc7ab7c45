-- ===== src/Services/Laws/Table.antt =====
-- What the code relies on of PostgreSQL and TypeORM for links/link.entity.ts.
use mikrouli.Common.{ℕ, ◌<◌, ◌≤◌, All, length, String, ◌≡◌, ◌≢◌, ◌⊎◌, Option, none, some, List, ◌∷◌}
use mikrouli.Http.{Exception, ok, throw}
use mikrouli.Io.{Io}
use mikrouli.Services.Slugs.{FillsColumn, bare}
use mikrouli.Services.{Link, LinkFields, LinkTable, Outbox, UserTable}

-- The row that an insert makes at a time of the database's clock.
abbrev pub link_of : LinkFields → ℕ → Link
link_of f at = record {
  short_url = f.short_url;
  original_url = f.original_url;
  user_id = f.user_id;
  created_at = at;
  expires_at = some f.expires_at;
}

-- `expiresAt: LessThan(now)`, which a null expiry does not meet.
abbrev pub ExpiredBefore : ℕ → Link → Type 0
ExpiredBefore now l = (at : ℕ) × (l.expires_at ≡ some at) × (at < now)

-- The table `links`: its primary key is the slug, a column CHAR(6). `row` is the committed row whose
-- slug the column does not tell apart from a text: trailing blanks are ignored, and a value that is
-- stored has six characters.
pub record LinkLaws {P : Type 0} (table : LinkTable P) : Type 0 where
  pub row : P → String → Option Link
  pub outbox : P → List (String × String)
  pub clock : P → ℕ
  pub insert_fresh :
      (f : LinkFields) (p : P) → (table.insert f p).0 ≡ ok tt → row p f.short_url ≡ none
  pub insert_taken :
      (f : LinkFields) (p : P) {l : Link}
      → row p f.short_url ≡ some l
      → (table.insert f p).0 ≢ ok tt
  pub insert_row :
      (f : LinkFields) (p : P)
      → FillsColumn f.short_url
      → (table.insert f p).0 ≡ ok tt
      → row (table.insert f p).1 f.short_url ≡ some (link_of f (clock p))
  pub insert_keeps :
      (f : LinkFields) (s : String) (p : P)
      → bare f.short_url ≢ bare s
      → row (table.insert f p).1 s ≡ row p s
  pub row_same : (s t : String) (p : P) → bare s ≡ bare t → row p s ≡ row p t
  pub row_fills : (s : String) (p : P) {l : Link} → row p s ≡ some l → FillsColumn l.short_url
  pub find_one_row :
      (s : String) (p : P) {o : Option Link} → (table.find_one s p).0 ≡ ok o → o ≡ row p s
  pub find_one_keeps : (s t : String) (p : P) → row (table.find_one s p).1 t ≡ row p t
  pub row_slug :
      (s : String) (p : P) {l : Link} → FillsColumn s → row p s ≡ some l → l.short_url ≡ s
  pub delete_row :
      (s : String) (p : P) → (table.delete s p).0 ≡ ok tt → row (table.delete s p).1 s ≡ none
  pub delete_keeps : (s t : String) (p : P) → bare s ≢ bare t → row (table.delete s p).1 t ≡ row p t
  -- A delete that throws has removed the row or has not.
  pub delete_either :
      (s : String) (p : P)
      → (row (table.delete s p).1 s ≡ row p s) ⊎ (row (table.delete s p).1 s ≡ none)
  -- Of the rows that are found some columns are read, the slug among them.
  pub find_expired_row :
      (now n : ℕ) (p : P) {ls : List Link}
      → (table.find_expired now n p).0 ≡ ok ls
      → All
          (λ (l : Link).
            (k : Link) × (row p l.short_url ≡ some k)
            × (k.short_url ≡ l.short_url)
            × ExpiredBefore now k)
          ls
  pub find_expired_length :
      (now n : ℕ) (p : P) {ls : List Link} → (table.find_expired now n p).0 ≡ ok ls → length ls ≤ n
  pub find_expired_keeps :
      (now n : ℕ) (t : String) (p : P) → row (table.find_expired now n p).1 t ≡ row p t
  pub update_row :
      (s u url : String) (p : P) {l : Link}
      → row p s ≡ some l
      → l.user_id ≡ u
      → (table.update s u url p).0 ≡ ok tt
      → row (table.update s u url p).1 s ≡ some (record l { original_url = url })
  pub update_keeps :
      (s u url t : String) (p : P) → bare s ≢ bare t → row (table.update s u url p).1 t ≡ row p t
  pub find_or_fail_row :
      (s : String) (p : P) {l : Link} → (table.find_one_or_fail s p).0 ≡ ok l → row p s ≡ some l
  pub find_or_fail_keeps : (s t : String) (p : P) → row (table.find_one_or_fail s p).1 t ≡ row p t
  pub find_or_fail_outbox : (s : String) (p : P) → outbox (table.find_one_or_fail s p).1 ≡ outbox p
  pub insert_outbox : (f : LinkFields) (p : P) → outbox (table.insert f p).1 ≡ outbox p
  pub save_outbox_lem :
      (o : Outbox) (p : P)
      → (table.save_outbox o p).0 ≡ ok tt
      → outbox (table.save_outbox o p).1 ≡ (o.slug, o.original_url) ∷ outbox p
  pub save_outbox_keeps :
      (o : Outbox) (t : String) (p : P) → row (table.save_outbox o p).1 t ≡ row p t
  -- A transaction that returns has committed what its body did; one that throws has changed nothing.
  pub commit :
      (m : Io P Link) (p : P) {l : Link} → (table.transaction m p).0 ≡ ok l → (m p).0 ≡ ok l
  pub commit_row :
      (m : Io P Link) (t : String) (p : P) {l : Link}
      → (table.transaction m p).0 ≡ ok l
      → row (table.transaction m p).1 t ≡ row (m p).1 t
  pub commit_outbox :
      (m : Io P Link) (p : P) {l : Link}
      → (table.transaction m p).0 ≡ ok l
      → outbox (table.transaction m p).1 ≡ outbox (m p).1
  pub rollback_row :
      (m : Io P Link) (t : String) (p : P) {e : Exception}
      → (table.transaction m p).0 ≡ throw e
      → row (table.transaction m p).1 t ≡ row p t
  pub rollback_outbox :
      (m : Io P Link) (p : P) {e : Exception}
      → (table.transaction m p).0 ≡ throw e
      → outbox (table.transaction m p).1 ≡ outbox p
  -- What the code passes over on the way changes no committed row.
  pub count_keeps :
      (u : String) (a b : ℕ) (t : String) (p : P) → row (table.count u a b p).1 t ≡ row p t

-- Statements on `links` that are atomic: one that throws has changed no row. A connection that breaks
-- after the commit is the exception.
pub record LinkAtomic {P : Type 0} (table : LinkTable P) (laws : LinkLaws table) : Type 0 where
  pub delete_failed :
      (s : String) (p : P) {e : Exception}
      → (table.delete s p).0 ≡ throw e
      → laws.row (table.delete s p).1 s ≡ laws.row p s
  pub update_failed :
      (s u url : String) (p : P) {e : Exception}
      → (table.update s u url p).0 ≡ throw e
      → laws.row (table.update s u url p).1 s ≡ laws.row p s

-- Reading a user changes no row of `links`.
pub record LinksApart {P : Type 0} (table : LinkTable P) (laws : LinkLaws table)
    (users : UserTable P) : Type 0 where
  pub find_user_keeps :
      (i s : String) (p : P) → laws.row (users.find_by_id_or_fail i p).1 s ≡ laws.row p s
