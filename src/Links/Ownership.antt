-- ===== src/Links/Ownership.antt =====
-- Only its owner changes a link: `delete` and `updateDestination` of
-- apps/api/src/links/links.service.ts.
use mikrouli.Common.{String, ◌≡◌, ◌≢◌, ◌⊎◌, inl, inr, none, some, arith, eq_iff}
use mikrouli.Http.{ok, Result-cases}
use mikrouli.Io.{App}
use mikrouli.Services.{Link, LinkTable, UserTable, Runtime}
use mikrouli.Services.Slugs.{bare}
use mikrouli.Services.Laws.{LinkLaws}
use mikrouli.Usage.{Limits}
use mikrouli.Links.{SlugGenerator, get_owned_link, delete, update_destination}

module _ {P R E : Type 0} (table : LinkTable P) (laws : LinkLaws table) (users : UserTable P)
    (runtime : Runtime E) (slugs : SlugGenerator E) (limits : Limits) where
  open laws use {row}

  -- The slug has a row, and the caller owns it.
  abbrev pub Owns : App P R E → String → String → Type 0
  Owns w slug user = (l : Link) × (row w.pg slug ≡ some l) × (l.user_id ≡ user)

  pub get_owned_link-Owns :
      (slug user : String) (w : App P R E) {l : Link}
      → (get_owned_link table users runtime slugs limits slug user w).0 ≡ ok l
      → (row w.pg slug ≡ some l) × (l.user_id ≡ user)
  unfolding get_owned_link
  get_owned_link-Owns slug user w {l} h = elim (Result-cases (table.find_one slug w.pg).0) [
    | inl (none, e) ↦ absurd (ground arith)
    | inl (some found, e) ↦ ground (arith, eq_iff found.user_id user, laws.find_one_row slug w.pg e)
    | inr (x, e) ↦ absurd (ground arith)
  ]

  pub get_owned_link-keeps :
      (slug user t : String) (w : App P R E)
      → row (get_owned_link table users runtime slugs limits slug user w).1.pg t ≡ row w.pg t
  unfolding get_owned_link
  get_owned_link-keeps slug user t w = ground (arith, laws.find_one_keeps slug t w.pg)

  pub get_owned_link-env :
      (slug user : String) (w : App P R E)
      → (get_owned_link table users runtime slugs limits slug user w).1.env ≡ w.env
  unfolding get_owned_link
  get_owned_link-env slug user w = ground arith

  -- What a call on one slug may do to the table: nothing, or something to that slug's row, which the
  -- caller owns.
  abbrev pub Touches : String → String → App P R E → App P R E → Type 0
  Touches slug user w w' =
      ((t : String) → row w'.pg t ≡ row w.pg t)
      ⊎ (Owns w slug user × ((t : String) → bare slug ≢ bare t → row w'.pg t ≡ row w.pg t))

  delete-Touches :
      (slug user : String) (w : App P R E)
      → Touches slug user w (delete table users runtime slugs limits slug user w).1
  unfolding delete
  delete-Touches slug user w =
      let found = get_owned_link table users runtime slugs limits slug user w in
      elim (Result-cases found.0) [
        | inl (l, e) ↦ inr (
          (l, (get_owned_link-Owns slug user w e).0, (get_owned_link-Owns slug user w e).1),
          λ t ne.
              ground
                (arith, laws.delete_keeps slug t found.1.pg ne, get_owned_link-keeps slug user t w),
        )
        | inr (x, e) ↦ inl (λ t. ground (arith, get_owned_link-keeps slug user t w))
      ]

  update_destination-Touches :
      (slug user url : String) (w : App P R E)
      → Touches slug user w (update_destination table users runtime slugs limits slug user url w).1
  unfolding update_destination
  update_destination-Touches slug user url w =
      let found = get_owned_link table users runtime slugs limits slug user w in
      elim (Result-cases found.0) [
        | inl (l, e) ↦ inr (
          (l, (get_owned_link-Owns slug user w e).0, (get_owned_link-Owns slug user w e).1),
          λ t ne. ground (
            arith,
            laws.update_keeps slug user url t found.1.pg ne,
            get_owned_link-keeps slug user t w,
          ),
        )
        | inr (x, e) ↦ inl (λ t. ground (arith, get_owned_link-keeps slug user t w))
      ]

  -- Deletion and change of destination leave every row as it was, or they touch the row of the
  -- given slug alone, told from others as the column does, and then the caller owns it.
  pub owner_only :
      (slug user url : String) (w : App P R E)
      → Touches slug user w (delete table users runtime slugs limits slug user w).1
        × Touches slug user w
            (update_destination table users runtime slugs limits slug user url w).1
  owner_only slug user url w =
      (delete-Touches slug user w, update_destination-Touches slug user url w)
