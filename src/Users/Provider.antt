-- ===== src/Users/Provider.antt =====
-- The sign-in through a provider in apps/api/src/users/users.service.ts: the account at the provider
-- is linked to the user who is returned, and stays with that user.
use mikrouli.Common.{
  String, Option, none, some, ◌≡◌, ◌⊎◌, refl, ap, ◌∙◌, inl, inr, arith, Bool-cases,
}
use mikrouli.Http.{Exception, ok, throw, Result-cases}
use mikrouli.Services.{User, UserTable}
use mikrouli.Services.Laws.{UserLaws}
use mikrouli.Users.{
  is_unique_violation, link_provider, link_or_create, resolve_provider_identity,
  find_or_create_from_provider,
}

module _ {P : Type 0} (users : UserTable P) (db : UserLaws users) (k : String) where
  -- A user who is in the table and to whom the account at the provider is linked.
  abbrev pub SignedIn : P → User → Type 0
  SignedIn p u = (db.linked p k ≡ some u.id) × (db.user p u.id ≡ some u)

  link_provider-SignedIn :
      (p : P) (u v : User)
      → db.user p u.id ≡ some u
      → (link_provider users k u p).0 ≡ ok v
      → SignedIn (link_provider users k u p).1 v
  unfolding link_provider
  link_provider-SignedIn p u v stored h = elim (Result-cases (users.save_provider k u.id p).0) [
    | inl (done, e) ↦
        let same : u ≡ v = ground arith in
        (
          ground (arith, db.save_provider_linked k u.id p),
          ground (arith, db.save_provider_user k u.id u.id p),
        )
    | inr (x, e) ↦ absurd (ground arith)
  ]

  link_or_create-SignedIn :
      (p : P) (email : String) (o : Option User) (v : User)
      → ((u : User) → o ≡ some u → db.user p u.id ≡ some u)
      → (link_or_create users k email o p).0 ≡ ok v
      → SignedIn (link_or_create users k email o p).1 v
  unfolding link_or_create
  link_or_create-SignedIn p email (some u) v stored h =
      link_provider-SignedIn p u v (stored u refl) h
  link_or_create-SignedIn p email none v stored h =
      let q = (users.insert email none p).1 in
      elim (Result-cases (users.insert email none p).0) [
        | inl (done, e) ↦ elim (Result-cases (users.find_by_email_or_fail email q).0) [
          | inl (u, e') ↦
              let stored' : db.user (users.find_by_email_or_fail email q).1 u.id ≡ some u =
                db.email_or_fail_user email u.id q ∙ (db.email_or_fail_row email q e').1 in
              ground
                (arith, link_provider-SignedIn (users.find_by_email_or_fail email q).1 u v stored')
          | inr (x, e') ↦ absurd (ground arith)
        ]
        | inr (x, e) ↦ absurd (ground arith)
      ]

  resolve-SignedIn :
      (p : P) (email : String) (v : User)
      → (resolve_provider_identity users k email p).0 ≡ ok v
      → SignedIn (resolve_provider_identity users k email p).1 v
  unfolding resolve_provider_identity
  resolve-SignedIn p email v h =
      let q = (users.find_provider k p).1 in
      elim (Result-cases (users.find_provider k p).0) [
        | inl (none, e) ↦ elim (Result-cases (users.find_by_email email q).0) [
          | inl (o, e') ↦
              let stored : (u : User)
                  → o ≡ some u
                  → db.user (users.find_by_email email q).1 u.id ≡ some u =
                λ u d.
                  db.find_by_email_user email u.id q
                  ∙ (db.find_by_email_row email q (e' ∙ ap ok d)).1 in
              ground
                (arith, link_or_create-SignedIn (users.find_by_email email q).1 email o v stored)
          | inr (x, e') ↦ absurd (ground arith)
        ]
        | inl (some a, e) ↦ ground (
          arith,
          db.find_provider_found k p e,
          db.find_provider_keeps k k p,
          db.find_or_fail_row a.user_id q {u = v},
          db.find_or_fail_linked a.user_id k q,
          db.find_or_fail_user a.user_id v.id q,
        )
        | inr (x, e) ↦ absurd (ground arith)
      ]

  -- An account that is linked already decides who signs in, whatever the email.
  resolve-linked :
      (p : P) (email id : String) (v : User)
      → db.linked p k ≡ some id
      → (resolve_provider_identity users k email p).0 ≡ ok v
      → v.id ≡ id
  unfolding resolve_provider_identity
  resolve-linked p email id v linked h =
      let q = (users.find_provider k p).1 in
      elim (Result-cases (users.find_provider k p).0) [
        | inl (none, e) ↦ absurd (ground (arith, db.find_provider_missing k p e))
        | inl (some a, e) ↦
            ground (arith, db.find_provider_found k p e, db.find_or_fail_row a.user_id q {u = v})
        | inr (x, e) ↦ absurd (ground arith)
      ]

  transaction-SignedIn :
      (p : P) (email : String) (v : User)
      → (users.transaction (resolve_provider_identity users k email) p).0 ≡ ok v
      → SignedIn (users.transaction (resolve_provider_identity users k email) p).1 v
  transaction-SignedIn p email v h =
      let body = resolve_provider_identity users k email in
      let done = resolve-SignedIn p email v (db.commit body p h) in
      (db.commit_linked body k p h ∙ done.0, db.commit_user body v.id p h ∙ done.1)

  -- Whoever is signed in, on the first try or on the second, is in the table, and the account at the
  -- provider is linked to them.
  pub find_or_create_from_provider-SignedIn :
      (p : P) (email : String) (v : User)
      → (find_or_create_from_provider users k email p).0 ≡ ok v
      → SignedIn (find_or_create_from_provider users k email p).1 v
  unfolding find_or_create_from_provider
  find_or_create_from_provider-SignedIn p email v h =
      let m = users.transaction (resolve_provider_identity users k email) in
      elim (Result-cases (m p).0) [
        | inl (u, e) ↦ ground (arith, transaction-SignedIn p email v)
        | inr (x, e) ↦ elim (Bool-cases (is_unique_violation x)) [
          | inl lost ↦ ground (arith, transaction-SignedIn (m p).1 email v)
          | inr failed ↦ absurd (ground arith)
        ]
      ]

  find_or_create_from_provider-linked :
      (p : P) (email id : String) (v : User)
      → db.linked p k ≡ some id
      → (find_or_create_from_provider users k email p).0 ≡ ok v
      → v.id ≡ id
  unfolding find_or_create_from_provider
  find_or_create_from_provider-linked p email id v linked h =
      let body = resolve_provider_identity users k email in
      let m = users.transaction body in
      elim (Result-cases (m p).0) [
        | inl (u, e) ↦ ground (arith, resolve-linked p email id v linked, db.commit body p {u = v})
        | inr (x, e) ↦ elim (Bool-cases (is_unique_violation x)) [
          | inl lost ↦ ground (
            arith,
            resolve-linked (m p).1 email id v (db.rollback_linked body k p e ∙ linked),
            db.commit body (m p).1 {u = v},
          )
          | inr failed ↦ absurd (ground arith)
        ]
      ]

  -- After a sign-in through an account at the provider, the next one through it throws or signs the
  -- same user in, though the email may have changed in between and each time the transaction may have
  -- been run again.
  pub find_or_create_from_provider_twice :
      (p : P) (email email' : String) (u : User)
      → (find_or_create_from_provider users k email p).0 ≡ ok u
      → ((x : Exception) × ((find_or_create_from_provider users k email'
              (find_or_create_from_provider users k email p).1).0
            ≡ throw x))
        ⊎ ((v : User) × ((find_or_create_from_provider users k email'
                (find_or_create_from_provider users k email p).1).0
              ≡ ok v)
            × (v.id ≡ u.id))
  find_or_create_from_provider_twice p email email' u h =
      let q = (find_or_create_from_provider users k email p).1 in
      elim (Result-cases (find_or_create_from_provider users k email' q).0) [
        | inl (v, e) ↦
            let linked = (find_or_create_from_provider-SignedIn p email u h).0 in
            inr (v, e, find_or_create_from_provider-linked q email' u.id v linked e)
        | inr (x, e) ↦ inl (x, e)
      ]
