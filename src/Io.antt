-- ===== src/Io.antt =====
-- Asynchronous code as explicit state passing: a call changes the state and returns or throws, and
-- what it changed before a throw stays changed. The calls that a handler awaits run one after the
-- other, and so do those that it hands to `Promise.all`.
use mikrouli.Common.{◌≡◌, refl}
use mikrouli.Http.{Exception, Result, ok, throw}

abbrev pub Io : Type 0 → Type 0 → Type 0
Io S A = S → Result A × S

module _ {S : Type 0} where
  abbrev pub pure : {A : Type 0} → A → Io S A
  pure a s = (ok a, s)

  abbrev pub raise : {A : Type 0} → Exception → Io S A
  raise e s = (throw e, s)

  -- The rest of a handler after a call that has returned or thrown.
  abbrev pub continue : {A B : Type 0} → Result A → (A → Io S B) → Io S B
  continue (ok a) f s = f a s
  continue (throw e) f s = (throw e, s)

  infixl 5 ◌>>=◌ ◌>>◌
  abbrev pub ◌>>=◌ : {A B : Type 0} → Io S A → (A → Io S B) → Io S B
  ◌>>=◌ m f s = continue (m s).0 f (m s).1

  abbrev pub ◌>>◌ : {A B : Type 0} → Io S A → Io S B → Io S B
  m >> k = m >>= λ _. k

  -- A rest that only computes the answer leaves the state.
  pub continue-pure :
      {A B : Type 0} (r : Result A) (f : A → B) (s : S) → (continue r (λ a. pure (f a)) s).1 ≡ s
  continue-pure (ok a) f s = refl
  continue-pure (throw e) f s = refl

  -- `try { return await m; } catch (err) { … }`
  abbrev pub recover : {A : Type 0} → Result A → (Exception → Io S A) → Io S A
  recover (ok a) f s = (ok a, s)
  recover (throw e) f s = f e s

  abbrev pub catch : {A : Type 0} → Io S A → (Exception → Io S A) → Io S A
  catch m f s = recover (m s).0 f (m s).1

-- The process with the three things outside it: the relational database, the Redis server, and the
-- runtime (the clock, randomness and the cryptographic libraries).
pub record App (P R E : Type 0) : Type 0 where
  pub pg : P
  pub redis : R
  pub env : E

module _ {P R E A : Type 0} where
  abbrev pub on_pg : Io P A → Io (App P R E) A
  on_pg m w = ((m w.pg).0, record w { pg = (m w.pg).1 })

  abbrev pub on_redis : Io R A → Io (App P R E) A
  on_redis m w = ((m w.redis).0, record w { redis = (m w.redis).1 })

  -- The runtime's calls do not throw.
  abbrev pub on_env : (E → A × E) → Io (App P R E) A
  on_env m w = (ok (m w.env).0, record w { env = (m w.env).1 })
