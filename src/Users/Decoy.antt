-- ===== src/Users/Decoy.antt =====
-- Registration with an email that is taken, in apps/api/src/users/users.service.ts and
-- apps/api/src/auth/auth.service.ts.
use mikrouli.Common.{String, Option, ◌≡◌, refl, arith, eq_refl}
use mikrouli.Http.{ok, throw, query_failed}
use mikrouli.Io.{App}
use mikrouli.Services.{User, UserTable, Runtime}
use mikrouli.Services.Laws.{UserLaws}
use mikrouli.Users.{create, decoy_user}

module _ {P R E : Type 0} (users : UserTable P) (runtime : Runtime E) (db : UserLaws users) where
  -- Where the database refuses the email because it is taken, the caller gets a user with that email
  -- and a fresh id all the same, and no user has changed.
  pub create_taken :
      (email : String) (hash : Option String) (w : App P R E)
      → (users.save email hash w.pg).0 ≡ throw (query_failed "23505")
      → ((u : User) × ((create users runtime email hash w).0 ≡ ok u)
          × (u.email ≡ email)
          × (u.id ≡ (runtime.random_uuid w.env).0))
        × ((id : String) → db.user (create users runtime email hash w).1.pg id ≡ db.user w.pg id)
  unfolding create
  create_taken email hash w e =
      let (id, e') = runtime.random_uuid w.env in
      let at = (runtime.now e').0 in
      (
        (decoy_user email id at, ground (arith, eq_refl "23505"), refl, refl),
        λ id. ground (arith, eq_refl "23505", db.save_violated email hash id w.pg e),
      )
