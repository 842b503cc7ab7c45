-- ===== src/Oauth/State.antt =====
-- The state tokens of apps/api/src/auth/github.strategy.ts are good once.
use mikrouli.Common.{String, Bool, true, false, some, ◌≡◌, arith, ◌⊎◌, inl, inr}
use mikrouli.Http.{Exception, ok, throw, Result-cases}
use mikrouli.Io.{App}
use mikrouli.Services.{RedisClient, Runtime}
use mikrouli.Services.Laws.{RedisLaws}
use mikrouli.Oauth.{state_key, store, verify}

module _ {P R E : Type 0} (client : RedisClient R) (runtime : Runtime E)
    (cache : RedisLaws client) where
  -- Where a verification of a state has returned, whether it accepted the state or not, the next one
  -- either throws or returns that the state is not accepted.
  pub verify_once :
      (state : String) (w : App P R E) (first : Bool)
      → (verify client runtime state w).0 ≡ ok first
      → ((x : Exception) × ((verify client runtime state (verify client runtime state w).1).0
            ≡ throw x))
        ⊎ ((verify client runtime state (verify client runtime state w).1).0 ≡ ok false)
  unfolding verify
  verify_once state w first h =
      let s = (client.getdel (state_key state) w.redis).1 in
      elim (Result-cases (client.getdel (state_key state) w.redis).0) [
        | inl (v, e) ↦
            let gone = cache.getdel_absent (state_key state) w.redis e in
            elim (Result-cases (client.getdel (state_key state) s).0) [
              | inl (v', e') ↦ inr (ground (arith, gone, cache.getdel_value (state_key state) s e'))
              | inr (x, e') ↦ inl (x, ground arith)
            ]
        | inr (x, e) ↦ absurd (ground arith)
      ]

  -- A token that has just been stored is accepted, where Redis answers.
  pub verify-store :
      (w : App P R E) (token : String) (accepted : Bool)
      → (store client runtime w).0 ≡ ok token
      → (verify client runtime token (store client runtime w).1).0 ≡ ok accepted
      → accepted ≡ true
  unfolding verify store
  verify-store w token accepted h h' =
      let minted = (runtime.random_hex 32 w.env).0 in
      let s = (client.set (state_key minted) "1" (some 600) w.redis).1 in
      elim (Result-cases (client.set (state_key minted) "1" (some 600) w.redis).0) [
        | inl (done, e) ↦
            let stored = cache.set_value (state_key minted) "1" (some 600) w.redis e in
            elim (Result-cases (client.getdel (state_key minted) s).0) [
              | inl (v, e') ↦ ground (arith, cache.getdel_value (state_key minted) s e')
              | inr (x, e') ↦ absurd (ground arith)
            ]
        | inr (x, e) ↦ absurd (ground arith)
      ]
