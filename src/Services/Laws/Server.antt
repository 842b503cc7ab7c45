-- ===== src/Services/Laws/Server.antt =====
-- What the code relies on of the Redis server behind redis/redis.service.ts.
use mikrouli.Common.{ℕ, String, ◌≡◌, ◌≢◌, ◌⊎◌, Option, none, some}
use mikrouli.Http.{ok}
use mikrouli.Services.{RedisClient}

-- A Redis server: `value` is what GET answers now, `ttl` the lifetime that the last SET gave.
pub record RedisLaws {R : Type 0} (client : RedisClient R) : Type 0 where
  pub value : R → String → Option String
  pub ttl : R → String → Option ℕ
  pub get_value :
      (k : String) (s : R) {v : Option String} → (client.get k s).0 ≡ ok v → v ≡ value s k
  pub get_keeps : (k j : String) (s : R) → value (client.get k s).1 j ≡ value s j
  pub set_value :
      (k v : String) (t : Option ℕ) (s : R)
      → (client.set k v t s).0 ≡ ok tt
      → value (client.set k v t s).1 k ≡ some v
  pub set_ttl :
      (k v : String) (t : Option ℕ) (s : R)
      → (client.set k v t s).0 ≡ ok tt
      → ttl (client.set k v t s).1 k ≡ t
  -- Also where the call throws, the key has its old value or the new one.
  pub set_either :
      (k v : String) (t : Option ℕ) (s : R)
      → (value (client.set k v t s).1 k ≡ value s k) ⊎ (value (client.set k v t s).1 k ≡ some v)
  pub set_keeps :
      (k v : String) (t : Option ℕ) (j : String) (s : R)
      → k ≢ j
      → value (client.set k v t s).1 j ≡ value s j
  pub del_value :
      (k : String) (s : R) → (client.del k s).0 ≡ ok tt → value (client.del k s).1 k ≡ none
  pub del_either :
      (k : String) (s : R)
      → (value (client.del k s).1 k ≡ value s k) ⊎ (value (client.del k s).1 k ≡ none)
  pub del_keeps : (k j : String) (s : R) → k ≢ j → value (client.del k s).1 j ≡ value s j
  pub getdel_value :
      (k : String) (s : R) {v : Option String} → (client.getdel k s).0 ≡ ok v → v ≡ value s k
  pub getdel_absent :
      (k : String) (s : R) {v : Option String}
      → (client.getdel k s).0 ≡ ok v
      → value (client.getdel k s).1 k ≡ none

-- A server that is reachable: no call of the cache throws.
pub record RedisUp {R : Type 0} (client : RedisClient R) (laws : RedisLaws client) : Type 0 where
  pub get_up : (k : String) (s : R) → (client.get k s).0 ≡ ok (laws.value s k)
  pub set_up : (k v : String) (t : Option ℕ) (s : R) → (client.set k v t s).0 ≡ ok tt
  pub del_up : (k : String) (s : R) → (client.del k s).0 ≡ ok tt
