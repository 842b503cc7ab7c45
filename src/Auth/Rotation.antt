-- ===== src/Auth/Rotation.antt =====
-- The rotation and the revocation of refresh tokens in apps/api/src/auth/auth.service.ts.
use text.Mathlib.TextLemmas.{append_cancel_left}
use mikrouli.Common.{String, Option, none, some, ◌≡◌, ◌≢◌, ap, ◌∙◌, inl, inr, arith, eq_iff}
use mikrouli.Http.{Exception, Result, ok, throw, Result-cases, unauthorized}
use mikrouli.Io.{App}
use mikrouli.Services.{User, UserTable, RedisClient, Runtime, JwtPayload}
use mikrouli.Services.Laws.{RedisLaws, RedisUp}
use mikrouli.Auth.{
  Session, build_revocation_key, truthy, issue_tokens, claims, found, rotate_refresh,
  revoke_refresh,
}

-- A token that verifies as a refresh token with an id and a family.
pub record Presents {E : Type 0} (config : String → Option String) (runtime : Runtime E)
    (token : String) (e : E) (payload : JwtPayload) (jti family : String) : Type 0 where
  pub secret : String
  pub configured : config "JWT_REFRESH_SECRET" ≡ some secret
  pub verified : (runtime.verify token secret e).0 ≡ some payload
  pub is_refresh : payload.type ≡ some "refresh"
  pub has_jti : truthy payload.jti ≡ some jti
  pub has_family : truthy payload.family ≡ some family

build_revocation_key-injective :
    (f g : String) → build_revocation_key f ≡ build_revocation_key g → f ≡ g
unfolding build_revocation_key
build_revocation_key-injective f g e = append_cancel_left "auth:refresh:" f g e

module _ {P R E : Type 0} (config : String → Option String) (users : UserTable P)
    (client : RedisClient R) (runtime : Runtime E) (cache : RedisLaws client) where
  -- The family of the tokens that are issued from a state of the runtime.
  abbrev pub new_family : E → String
  new_family e = (runtime.random_uuid (runtime.random_uuid e).1).0

  issue_tokens-keeps :
      (user : User) (w : App P R E) (family : String)
      → new_family w.env ≢ family
      → cache.value
          (issue_tokens config users client runtime user w).1.redis
          (build_revocation_key family)
        ≡ cache.value w.redis (build_revocation_key family)
  unfolding issue_tokens
  issue_tokens-keeps user w family ne = ground (
    arith,
    cache.set_keeps (build_revocation_key (new_family w.env)) (runtime.random_uuid w.env).0
        (some 604800) (build_revocation_key family) w.redis
        (λ e. ne (build_revocation_key-injective _ _ e)),
  )

  issue_tokens-ne-throw :
      (user : User) (w : App P R E) (refresh_secret : String) {x : Exception}
      → RedisUp client cache
      → config "JWT_REFRESH_SECRET" ≡ some refresh_secret
      → ¬ ((issue_tokens config users client runtime user w).0 ≡ throw x)
  unfolding issue_tokens
  issue_tokens-ne-throw user w refresh_secret up c h = ground (
    arith,
    up.set_up (build_revocation_key (new_family w.env)) (runtime.random_uuid w.env).0 (some 604800)
        w.redis,
  )

  issue_tokens-ok :
      (user : User) (w : App P R E) (refresh_secret : String)
      → RedisUp client cache
      → config "JWT_REFRESH_SECRET" ≡ some refresh_secret
      → (s : Session) × ((issue_tokens config users client runtime user w).0 ≡ ok s)
  issue_tokens-ok user w refresh_secret up c =
      elim (Result-cases (issue_tokens config users client runtime user w).0) [
        | inl found ↦ found
        | inr (e, h) ↦ absurd (issue_tokens-ne-throw user w refresh_secret up c h)
      ]

module _ {P R E : Type 0} (config : String → Option String) (users : UserTable P)
    (client : RedisClient R) (runtime : Runtime E) (cache : RedisLaws client) (token : String)
    (payload : JwtPayload) (jti family : String) where
  abbrev key : String
  key = build_revocation_key family

  -- The server after the stored id has been read.
  abbrev read : App P R E → R
  read w = (client.get key w.redis).1

  claims_lem :
      (type j f : Option String) (w : App P R E)
      → type ≡ some "refresh"
      → truthy j ≡ some jti
      → truthy f ≡ some family
      → claims config users client runtime type j f w ≡ (ok (jti, family), w)
  unfolding claims
  claims_lem type j f w is_refresh has_jti has_family = rw (is_refresh, has_jti, has_family)

  -- A refresh token whose id is not the stored one of its family is refused, and where Redis
  -- answers the family is revoked.
  pub rotate_refresh_replayed :
      (w : App P R E) (stored : String)
      → Presents config runtime token w.env payload jti family
      → (client.get key w.redis).0 ≡ ok (some stored)
      → stored ≢ jti
      → (client.del key (read w)).0 ≡ ok tt
      → ((rotate_refresh config users client runtime token w).0 ≡ throw unauthorized)
        × (cache.value (rotate_refresh config users client runtime token w).1.redis key ≡ none)
  unfolding rotate_refresh
  rotate_refresh_replayed w stored p got ne deleted =
      let env' = (runtime.verify token p.secret w.env).1 in
      ground (
        arith,
        claims_lem payload.type payload.jti payload.family (record w { env = env' }) p.is_refresh
            p.has_jti p.has_family,
        eq_iff stored jti,
        cache.del_value key (read w),
      )

  -- The user whose tokens are issued, and the state from which they are.
  pub rotate_refresh_accepted :
      (w : App P R E) (user : User)
      → (p : Presents config runtime token w.env payload jti family)
      → (client.get key w.redis).0 ≡ ok (some jti)
      → (users.find_by_id payload.sub w.pg).0 ≡ ok (some user)
      → rotate_refresh config users client runtime token w
        ≡ issue_tokens config users client runtime user (record {
          pg = (users.find_by_id payload.sub w.pg).1;
          redis = read w;
          env = (runtime.verify token p.secret w.env).1;
        })
  unfolding rotate_refresh
  rotate_refresh_accepted w user p got row =
      let env' = (runtime.verify token p.secret w.env).1 in
      ground (
        arith,
        claims_lem payload.type payload.jti payload.family (record w { env = env' }) p.is_refresh
            p.has_jti p.has_family,
        eq_iff jti jti,
      )

  -- A refresh token stays good after it has been rotated: the new tokens stand under a family of
  -- their own, so its id is still the stored one of its family, and where it still verifies, the
  -- user still exists and Redis answers, the same token is rotated a second time.
  pub rotate_refresh_again :
      (w : App P R E) (user again : User)
      → RedisUp client cache
      → (p : Presents config runtime token w.env payload jti family)
      → cache.value w.redis key ≡ some jti
      → (users.find_by_id payload.sub w.pg).0 ≡ ok (some user)
      → new_family config users client runtime cache (runtime.verify token p.secret w.env).1
        ≢ family
      → Presents config runtime token
          (rotate_refresh config users client runtime token w).1.env
          payload
          jti
          family
      → (users.find_by_id payload.sub (rotate_refresh config users client runtime token w).1.pg).0
        ≡ ok (some again)
      → (s : Session) × ((rotate_refresh config users client runtime token
            (rotate_refresh config users client runtime token w).1).0
          ≡ ok s)
  rotate_refresh_again w user again up p stored row fresh p' row' =
      let w' = (rotate_refresh config users client runtime token w).1 in
      let got : (client.get key w.redis).0 ≡ ok (some jti) = up.get_up key w.redis ∙ ap ok stored in
      let first = rotate_refresh_accepted w user p got row in
      let kept : cache.value w'.redis key ≡ some jti =
        ap (λ (x : Result Session × App P R E). cache.value x.1.redis key) first
        ∙ issue_tokens-keeps config users client runtime cache user _ family fresh
        ∙ cache.get_keeps key key w.redis
        ∙ stored in
      let got' : (client.get key w'.redis).0 ≡ ok (some jti) =
        up.get_up key w'.redis ∙ ap ok kept in
      let second = rotate_refresh_accepted w' again p' got' row' in
      rw second (issue_tokens-ok config users client runtime cache again _ p.secret up p.configured)

  revoke_refresh-absent :
      (w : App P R E)
      → Presents config runtime token w.env payload jti family
      → (revoke_refresh config users client runtime token w).0 ≡ ok tt
      → cache.value (revoke_refresh config users client runtime token w).1.redis key ≡ none
  unfolding revoke_refresh
  revoke_refresh-absent w p h = ground (arith, cache.del_value key w.redis)

  rotate_refresh_absent :
      (w : App P R E)
      → Presents config runtime token w.env payload jti family
      → (client.get key w.redis).0 ≡ ok none
      → (rotate_refresh config users client runtime token w).0 ≡ throw unauthorized
  unfolding rotate_refresh
  rotate_refresh_absent w p got =
      let env' = (runtime.verify token p.secret w.env).1 in
      ground (
        arith,
        claims_lem payload.type payload.jti payload.family (record w { env = env' }) p.is_refresh
            p.has_jti p.has_family,
      )

  -- After a revocation that has succeeded the token is refused, where Redis answers.
  pub rotate_refresh_revoked :
      (w : App P R E)
      → RedisUp client cache
      → Presents config runtime token w.env payload jti family
      → (revoke_refresh config users client runtime token w).0 ≡ ok tt
      → Presents config runtime token
          (revoke_refresh config users client runtime token w).1.env
          payload
          jti
          family
      → (rotate_refresh config users client runtime token
          (revoke_refresh config users client runtime token w).1).0
        ≡ throw unauthorized
  rotate_refresh_revoked w up p h p' =
      rotate_refresh_absent _ p' (up.get_up key _ ∙ ap ok (revoke_refresh-absent w p h))
