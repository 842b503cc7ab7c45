-- ===== src/Services/Memory/Links.antt =====
-- The tables `links` and `outbox` held in memory.
pub mod Laws
use mathlib.Core.Path.{subst}
use mikrouli.Common.{
  ℕ, zero, suc, ◌≤◌, ◌<◌, String, Bool, true, false, Option, none, some, List, [], ◌∷◌, ltb, leb,
  ltb→lt, str_eq, eq_iff, eq_refl, take, length, All, or_else, ◌≡◌, ◌≢◌, ◌⊎◌, refl, sym, ap, ◌∙◌,
  ◌&&◌, ◌==◌, arith, Bool-cases, Option-cases, inl, inr, if◌then◌else◌,
}
use mikrouli.Http.{Exception, Result, ok, throw, other, Result-cases}
use mikrouli.Io.{Io}
use mikrouli.Services.{Link, LinkFields, LinkTable, Outbox}
use mikrouli.Services.Slugs.{FillsColumn, bare, chars, bare-injective}
use mikrouli.Services.Laws.{LinkLaws, ExpiredBefore, link_of, unique_violation}
use mikrouli.Services.Memory.{Database, set_at, set_at-same, set_at-other}

abbrev pub with_slug : String → Option Link → Option Link
with_slug s none = none
with_slug s (some l) =
    if str_eq (bare l.short_url) s && chars l.short_url == 6 then some l else none

-- The links are kept under what the column compares of their slugs.
abbrev pub row : Database → String → Option Link
row p s = with_slug (bare s) (p.links (bare s))

with_slug-slug :
    (s : String) (o : Option Link) {l : Link}
    → with_slug s o ≡ some l
    → (bare l.short_url ≡ s) × FillsColumn l.short_url
with_slug-slug s none h = absurd (ground arith)
with_slug-slug s (some l') {l = l} h =
    elim (Bool-cases (str_eq (bare l'.short_url) s && chars l'.short_url == 6)) [
      | inl e ↦ ground (arith, eq_iff (bare l'.short_url) s)
      | inr e ↦ absurd (ground arith)
    ]

abbrev pub put : Link → Database → Database
put l p = record p {
  links = set_at (bare l.short_url) (some l) p.links;
  slugs = l.short_url ∷ p.slugs;
}

shows :
    (l : Link) (s : String)
    → bare l.short_url ≡ s
    → FillsColumn l.short_url
    → with_slug s (some l) ≡ some l
shows l s e six = ground (arith, eq_iff (bare l.short_url) s)

row-put : (l : Link) (p : Database) → FillsColumn l.short_url → row (put l p) l.short_url ≡ some l
row-put l p six =
    ap (with_slug (bare l.short_url)) (set_at-same (bare l.short_url) (some l) p.links)
    ∙ shows l (bare l.short_url) refl six

row-put_other :
    (l : Link) (p : Database) (t : String) → bare l.short_url ≢ bare t → row (put l p) t ≡ row p t
row-put_other l p t ne =
    ap (with_slug (bare t)) (set_at-other (bare l.short_url) (some l) p.links (bare t) ne)

abbrev pub insert_where : Option Link → LinkFields → Io Database (Unit {0})
insert_where none f p = (ok tt, put (link_of f p.clock) p)
insert_where (some l) f p = (throw unique_violation, p)

abbrev pub insert : LinkFields → Io Database (Unit {0})
insert f p = insert_where (row p f.short_url) f p

abbrev pub remove : String → Database → Database
remove s p = record p { links = set_at (bare s) none p.links }

abbrev pub update_where : Option Link → String → String → String → Database → Database
update_where none s u url p = p
update_where (some l) s u url p =
    if str_eq l.user_id u
    then record p { links = set_at (bare s) (some (record l { original_url = url })) p.links }
    else p

abbrev pub settle : Result Link → Database → Database → Result Link × Database
settle (ok l) p' p = (ok l, p')
settle (throw e) p' p = (throw e, p)

abbrev pub found_or_fail : Option Link → Result Link
found_or_fail none = throw (other "EntityNotFoundError")
found_or_fail (some l) = ok l

abbrev pub with_expired : ℕ → Option Link → List Link → List Link
with_expired now none rest = rest
with_expired now (some l) rest = elim l.expires_at [
  | none ↦ rest
  | some at ↦ if ltb at now then l ∷ rest else rest
]

abbrev pub expired_rows : Database → ℕ → List String → List Link
expired_rows p now [] = []
expired_rows p now (s ∷ ss) = with_expired now (row p s) (expired_rows p now ss)

abbrev pub owned_rows : Database → String → List String → List Link
owned_rows p u [] = []
owned_rows p u (s ∷ ss) = elim (row p s) [
  | none ↦ owned_rows p u ss
  | some l ↦ let rest = owned_rows p u ss in if str_eq l.user_id u then l ∷ rest else rest
]

abbrev pub created_within : ℕ → ℕ → List Link → List Link
created_within a b [] = []
created_within a b (l ∷ ls) =
    let rest = created_within a b ls in
    if leb a l.created_at then (if ltb l.created_at b then l ∷ rest else rest) else rest

abbrev pub links : LinkTable Database
links = record {
  insert = insert;
  save_outbox = λ o p. (ok tt, record p { outbox = (o.slug, o.original_url) ∷ p.outbox });
  find_one_or_fail = λ s p. (found_or_fail (row p s), p);
  find_one = λ s p. (ok (row p s), p);
  find_by_user = λ u p. (ok (owned_rows p u p.slugs), p);
  find_expired = λ now n p. (ok (take n (expired_rows p now p.slugs)), p);
  delete = λ s p. (ok tt, remove s p);
  update = λ s u url p. (ok tt, update_where (row p s) s u url p);
  count = λ u a b p. (ok (length (created_within a b (owned_rows p u p.slugs))), p);
  transaction = λ m p. settle (m p).0 (m p).1 p;
}

abbrev pub Stale : Database → ℕ → Link → Type 0
Stale p now l =
    (k : Link) × (row p l.short_url ≡ some k) × (k.short_url ≡ l.short_url) × ExpiredBefore now k

with_expired-Stale :
    (p : Database) (now : ℕ) (o : Option Link) (rest : List Link)
    → ((l : Link) → o ≡ some l → row p l.short_url ≡ some l)
    → All (Stale p now) rest
    → All (Stale p now) (with_expired now o rest)
with_expired-Stale p now none rest f h = h
with_expired-Stale p now (some l) rest f h = elim (Option-cases l.expires_at) [
  | inl e ↦ rw e h
  | inr (at, e) ↦ elim (Bool-cases (ltb at now)) [
    | inl b ↦ rw (e, b) ((l, f l refl, refl, (at, e, ltb→lt at now b)), h)
    | inr b ↦ rw (e, b) h
  ]
]

pub row-bare :
    (s : String) (p : Database) (l : Link)
    → row p s ≡ some l
    → (bare l.short_url ≡ bare s) × FillsColumn l.short_url
row-bare s p l h = with_slug-slug (bare s) (p.links (bare s)) {l = l} h

pub row-same : (s t : String) (p : Database) → bare s ≡ bare t → row p s ≡ row p t
row-same s t p e = ap (λ x. with_slug x (p.links x)) e

pub row-slug :
    (s : String) (p : Database) (l : Link) → FillsColumn s → row p s ≡ some l → l.short_url ≡ s
row-slug s p l six h =
    let (same, fills) = row-bare s p l h in bare-injective l.short_url s (fills ∙ sym six) same

pub expired_rows-Stale :
    (p : Database) (now : ℕ) (ss : List String) → All (Stale p now) (expired_rows p now ss)
expired_rows-Stale p now [] = tt
expired_rows-Stale p now (s ∷ ss) =
    with_expired-Stale p now (row p s) (expired_rows p now ss)
      (λ l e. row-same l.short_url s p (row-bare s p l e).0 ∙ e) (expired_rows-Stale p now ss)

pub All-take : {A : Type 0} (Q : A → Type 0) (n : ℕ) (xs : List A) → All Q xs → All Q (take n xs)
All-take Q zero xs _ = tt
All-take Q (suc n) [] _ = tt
All-take Q (suc n) (x ∷ xs) (q, qs) = (q, All-take Q n xs qs)

pub length-take_le : {A : Type 0} (n : ℕ) (xs : List A) → length (take n xs) ≤ n
length-take_le zero xs = omega arith
length-take_le (suc n) [] = omega arith
length-take_le (suc n) (x ∷ xs) = omega (arith, length-take_le n xs)

abbrev pub result_value : {A : Type 0} → A → Result A → A
result_value a (ok b) = b
result_value a (throw e) = a

pub ok-injective : {A : Type 0} {a b : A} → ok a ≡ ok b → a ≡ b
ok-injective {a = a} p = ap (result_value a) p

-- An inserted or changed row is read back.
row-set :
    (p : Database) (s : String) (l : Link) (ss : List String)
    → bare l.short_url ≡ bare s
    → FillsColumn l.short_url
    → row (record p { links = set_at (bare s) (some l) p.links; slugs = ss }) s ≡ some l
row-set p s l ss e six =
    ap (with_slug (bare s)) (set_at-same (bare s) (some l) p.links) ∙ shows l (bare s) e six

pub insert_where-row :
    (o : Option Link) (f : LinkFields) (p : Database)
    → (insert_where o f p).0 ≡ ok tt
    → (o ≡ none)
      × (FillsColumn f.short_url
          → row (insert_where o f p).1 f.short_url ≡ some (link_of f p.clock))
insert_where-row none f p h = (refl, λ six. row-put (link_of f p.clock) p six)
insert_where-row (some l) f p h = absurd (ground arith)

pub insert_where-keeps :
    (o : Option Link) (f : LinkFields) (t : String) (p : Database)
    → bare f.short_url ≢ bare t
    → row (insert_where o f p).1 t ≡ row p t
insert_where-keeps none f t p ne = row-put_other (link_of f p.clock) p t ne
insert_where-keeps (some l) f t p ne = refl

pub insert_where-outbox :
    (o : Option Link) (f : LinkFields) (p : Database) → (insert_where o f p).1.outbox ≡ p.outbox
insert_where-outbox none f p = refl
insert_where-outbox (some l) f p = refl

pub update_where-keeps :
    (o : Option Link) (s u url t : String) (p : Database)
    → bare s ≢ bare t
    → row (update_where o s u url p) t ≡ row p t
update_where-keeps none s u url t p ne = refl
update_where-keeps (some l) s u url t p ne = elim (Bool-cases (str_eq l.user_id u)) [
  | inl e ↦ rw e (
      ap (with_slug (bare t))
        (set_at-other (bare s) (some (record l { original_url = url })) p.links (bare t) ne))
  | inr e ↦ rw e refl
]

pub update_where-row :
    (o : Option Link) (s u url : String) (p : Database) (l : Link)
    → o ≡ some l
    → bare l.short_url ≡ bare s
    → FillsColumn l.short_url
    → l.user_id ≡ u
    → row (update_where o s u url p) s ≡ some (record l { original_url = url })
update_where-row o s u url p l h e six d =
    subst (λ x. row (update_where x s u url p) s ≡ some (record l { original_url = url })) (sym h)
      (rw ((eq_iff l.user_id u).1 d) (row-set p s (record l { original_url = url }) p.slugs e six))
