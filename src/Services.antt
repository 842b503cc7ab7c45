-- ===== src/Services.antt =====
-- The interfaces through which apps/api/src reaches code outside the repository: TypeORM over
-- PostgreSQL, ioredis, bcryptjs, @nestjs/jwt, Node's crypto and the clock. They are parameters of
-- every definition that uses them. The entities are those of links/entities, outbox/entities,
-- users and api-keys; times are milliseconds since the epoch.
pub mod Laws
pub mod Slugs
pub mod Memory
use mikrouli.Common.{ℕ, String, Bool, Option, List}
use mikrouli.Http.{Result}
use mikrouli.Io.{Io}

-- links/entities/link.entity.ts
pub record Link : Type 0 where
  pub short_url : String
  pub original_url : String
  pub user_id : String
  pub created_at : ℕ
  pub expires_at : Option ℕ

-- `LinkFields` of links.service.ts; a caller may pass no expiry, and the entity's may be null.
pub record LinkFields : Type 0 where
  pub short_url : String
  pub original_url : String
  pub user_id : String
  pub expires_at : ℕ

-- The columns of outbox.entity.ts that the code writes; the payload is the slug and the URL.
pub record Outbox : Type 0 where
  pub aggregate_type : String
  pub slug : String
  pub original_url : String

-- users/user.entity.ts
pub record User : Type 0 where
  pub id : String
  pub email : String
  pub password_hash : Option String
  pub monthly_link_limit : Option ℕ
  pub monthly_key_limit : Option ℕ
  pub created_at : ℕ

-- users/provider-account.entity.ts; the only provider is GitHub.
pub record ProviderAccount : Type 0 where
  pub provider_user_id : String
  pub user_id : String

-- api-keys/api-key.entity.ts
pub record ApiKey : Type 0 where
  pub id : String
  pub user_id : String
  pub label : String
  pub key_hash : String
  pub key_prefix : String
  pub created_at : ℕ
  pub last_used_at : Option ℕ
  pub revoked_at : Option ℕ

-- The calls of `EntityManager` on the tables `links` and `outbox`.
pub record LinkTable (P : Type 0) : Type 0 where
  pub insert : LinkFields → Io P (Unit {0})
  pub save_outbox : Outbox → Io P (Unit {0})
  pub find_one_or_fail : String → Io P Link
  pub find_one : String → Io P (Option Link)
  pub find_by_user : String → Io P (List Link)
  -- `find` with `expiresAt: LessThan(now)` and `take`
  pub find_expired : ℕ → ℕ → Io P (List Link)
  -- by slug
  pub delete : String → Io P (Unit {0})
  -- by slug and owner, the new destination
  pub update : String → String → String → Io P (Unit {0})
  -- by owner, from the first time up to and without the second
  pub count : String → ℕ → ℕ → Io P ℕ
  pub transaction : Io P Link → Io P Link

-- The calls on the tables `users` and `provider_accounts`.
pub record UserTable (P : Type 0) : Type 0 where
  pub find_by_email : String → Io P (Option User)
  pub find_by_id : String → Io P (Option User)
  pub find_by_id_or_fail : String → Io P User
  pub find_by_email_or_fail : String → Io P User
  -- email and password hash
  pub insert : String → Option String → Io P (Unit {0})
  pub save : String → Option String → Io P User
  pub find_provider : String → Io P (Option ProviderAccount)
  pub save_provider : String → String → Io P (Unit {0})
  pub transaction : Io P User → Io P User

-- The calls on the table `api_keys`.
pub record KeyTable (P : Type 0) : Type 0 where
  -- owner, label, hash, prefix
  pub save : String → String → String → String → Io P ApiKey
  pub find_by_user : String → Io P (List ApiKey)
  -- id, owner, time: the update of a row that is not revoked yet, and how many rows it changed
  pub revoke : String → String → ℕ → Io P ℕ
  -- a row with the prefix that is not revoked
  pub find_active : String → Io P (Option ApiKey)
  pub touch : String → ℕ → Io P (Unit {0})
  pub count : String → ℕ → ℕ → Io P ℕ

-- ioredis: GET, SET with an optional EX, DEL and GETDEL.
pub record RedisClient (R : Type 0) : Type 0 where
  pub get : String → Io R (Option String)
  pub set : String → String → Option ℕ → Io R (Unit {0})
  pub del : String → Io R (Unit {0})
  pub getdel : String → Io R (Option String)

-- `JwtPayload` of auth.service.ts; `iat` and `exp` are the library's affair.
pub record JwtPayload : Type 0 where
  pub sub : String
  pub email : String
  pub type : Option String
  pub jti : Option String
  pub family : Option String

-- The clock, randomness, bcryptjs and @nestjs/jwt.
pub record Runtime (E : Type 0) : Type 0 where
  pub now : E → ℕ × E
  pub random_uuid : E → String × E
  pub random_bytes : ℕ → E → List ℕ × E
  -- `crypto.randomBytes(n)` in base64url and in hexadecimal
  pub random_base64url : ℕ → E → String × E
  pub random_hex : ℕ → E → String × E
  pub bcrypt_hash : String → E → String × E
  -- each comparison is a step of the runtime, since its time is what an observer sees
  pub bcrypt_compare : String → String → E → Bool × E
  -- payload, and the secret and the lifetime in seconds where a call gives them
  pub sign : JwtPayload → Option (String × ℕ) → E → String × E
  -- token, secret; `none` where the library throws
  pub verify : String → String → E → Option JwtPayload × E
