-- ===== src/Redis.antt =====
-- apps/api/src/redis/redis.service.ts over a Redis client: the accessors of the cache, which turn an
-- error into a miss, and those of the revocation store, which let it through. Connection handling
-- and logging are left out.
use mikrouli.Common.{ℕ, String, Option, none, some, ltb, if◌then◌else◌}
use mikrouli.Io.{Io, pure, catch}
use mikrouli.Services.{RedisClient}

-- `ttlSeconds !== undefined && ttlSeconds > 0`
abbrev pub effective_ttl : Option ℕ → Option ℕ
effective_ttl none = none
effective_ttl (some n) = if ltb 0 n then some n else none

module _ {R : Type 0} (client : RedisClient R) where
  unfoldable pub set_with_optional_ttl : String → String → Option ℕ → Io R (Unit {0})
  set_with_optional_ttl key value ttl = client.set key value (effective_ttl ttl)

  unfoldable pub safe_get : String → Io R (Option String)
  safe_get key = catch (client.get key) (λ e. pure none)

  unfoldable pub safe_set : String → String → Option ℕ → Io R (Unit {0})
  unfolding set_with_optional_ttl
  safe_set key value ttl = catch (set_with_optional_ttl key value ttl) (λ e. pure tt)

  unfoldable pub safe_del : String → Io R (Unit {0})
  safe_del key = catch (client.del key) (λ e. pure tt)

  unfoldable pub get_or_throw : String → Io R (Option String)
  get_or_throw key = client.get key

  unfoldable pub set_or_throw : String → String → Option ℕ → Io R (Unit {0})
  unfolding set_with_optional_ttl
  set_or_throw key value ttl = set_with_optional_ttl key value ttl

  unfoldable pub del_or_throw : String → Io R (Unit {0})
  del_or_throw key = client.del key

  unfoldable pub getdel_or_throw : String → Io R (Option String)
  getdel_or_throw key = client.getdel key
