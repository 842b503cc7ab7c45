-- ===== src/Auth/Controller/Logout.antt =====
-- The end of a session in apps/api/src/auth/auth.controller.ts.
use mathlib.Core.Path.{subst}
use mikrouli.Common.{
  sym, ◌∙◌, String, Option, some, ◌≡◌, ap, ◌⊎◌, inl, inr, arith, List, Option-cases,
}
use mikrouli.Http.{Exception, Result, ok, throw, Result-cases, unauthorized, service_unavailable}
use mikrouli.Io.{App}
use mikrouli.Services.{UserTable, RedisClient, Runtime, JwtPayload}
use mikrouli.Services.Laws.{RedisLaws, RedisUp}
use mikrouli.Auth.{Cookie, truthy, revoke_refresh, rotate_refresh}
use mikrouli.Auth.Rotation.{Presents, rotate_refresh_revoked}
use mikrouli.Auth.Controller.{cleared, refresh, logout}

module _ {P R E : Type 0} (config : String → Option String) (users : UserTable P)
    (client : RedisClient R) (runtime : Runtime E) where
  -- The browser is told to drop its cookies exactly when the logout succeeds; where the revocation
  -- throws, the answer is 503 and the cookies stay.
  pub logout-cookies :
      (token : Option String) (w : App P R E) (before : List Cookie)
      → let after = logout config users client runtime token (w, before) in
        ((after.0 ≡ ok tt) × (after.1.1 ≡ cleared))
        ⊎ ((after.0 ≡ throw (service_unavailable "Session revocation temporarily unavailable"))
            × (after.1.1 ≡ before))
  unfolding logout
  logout-cookies token w before = elim (Option-cases (truthy token)) [
    | inl e ↦ inl (ground arith, ground arith)
    | inr (t, e) ↦ elim (Result-cases (revoke_refresh config users client runtime t w).0) [
      | inl (done, h) ↦ inl (ground arith, ground arith)
      | inr (x, h) ↦ inr (ground arith, ground arith)
    ]
  ]

  logout-revoke_refresh :
      (cookie : Option String) (token : String) (w : App P R E) (before : List Cookie)
      → truthy cookie ≡ some token
      → (logout config users client runtime cookie (w, before)).0 ≡ ok tt
      → ((revoke_refresh config users client runtime token w).0 ≡ ok tt)
        × ((logout config users client runtime cookie (w, before)).1
            ≡ ((revoke_refresh config users client runtime token w).1, cleared))
  unfolding logout
  logout-revoke_refresh cookie token w before e h =
      elim (Result-cases (revoke_refresh config users client runtime token w).0) [
        | inl (done, d) ↦ (d, ground arith)
        | inr (x, d) ↦ absurd (ground arith)
      ]

  -- Where the rotation throws, so does the refresh, and the cookies are as they were.
  refresh-throw :
      (payload_part : String → Option String) (parse_subject : String → Result String)
      (cookie : Option String) (token : String) (s : App P R E × List Cookie) {x : Exception}
      → truthy cookie ≡ some token
      → (rotate_refresh config users client runtime token s.0).0 ≡ throw x
      → let replay = refresh config users client runtime payload_part parse_subject cookie s in
        (replay.0 ≡ throw x) × (replay.1.1 ≡ s.1)
  unfolding refresh
  refresh-throw payload_part parse_subject cookie token s e h = (ground arith, ground arith)

  -- After a logout that has succeeded the refresh token of the session is refused, where Redis
  -- answers, and no cookie is set for it.
  pub logout-refresh :
      (cache : RedisLaws client) (payload_part : String → Option String)
      (parse_subject : String → Result String) (cookie : Option String) (token : String)
      (payload : JwtPayload) (jti family : String) (w : App P R E) (before : List Cookie)
      → RedisUp client cache
      → truthy cookie ≡ some token
      → Presents config runtime token w.env payload jti family
      → (logout config users client runtime cookie (w, before)).0 ≡ ok tt
      → Presents config runtime token
          (logout config users client runtime cookie (w, before)).1.0.env
          payload
          jti
          family
      → let replay =
          refresh config users client runtime payload_part parse_subject cookie
            (logout config users client runtime cookie (w, before)).1 in
        (replay.0 ≡ throw unauthorized) × (replay.1.1 ≡ cleared)
  logout-refresh cache payload_part parse_subject cookie token payload jti family w before up e p h
        p' =
      let (revoked, same) = logout-revoke_refresh cookie token w before e h in
      let after = logout config users client runtime cookie (w, before) in
      let refused : (rotate_refresh config users client runtime token after.1.0).0
          ≡ throw unauthorized =
        subst
          (λ (s : App P R E × List Cookie).
            Presents config runtime token s.0.env payload jti family
            → (rotate_refresh config users client runtime token s.0).0 ≡ throw unauthorized)
          (sym same)
          (rotate_refresh_revoked config users client runtime cache token payload jti family w up p
            revoked)
          p' in
      let (throws, keeps) =
        refresh-throw payload_part parse_subject cookie token after.1 e refused in
      (throws, keeps ∙ ap (λ (s : App P R E × List Cookie). s.1) same)
