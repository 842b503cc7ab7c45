-- ===== src/Cleanup.antt =====
-- apps/api/src/cleanup/cleanup.service.ts: the hourly removal of expired links, a batch at a time.
-- Logging is left out.
pub mod Batch
pub mod Sweep
pub mod Count
use mikrouli.Common.{ℕ, zero, suc, String, Bool, true, false, List, [], ◌∷◌, if◌then◌else◌}
use mikrouli.Io.{App, Io, on_pg, on_env, pure, catch, ◌>>=◌, ◌>>◌}
use mikrouli.Services.{Link, LinkTable, RedisClient, Runtime}
use mikrouli.Cache

abbrev pub cleanup_batch_size : ℕ
cleanup_batch_size = 1000

module _ {P R E : Type 0} (table : LinkTable P) (client : RedisClient R) (runtime : Runtime E) where
  unfoldable pub remove_from_db_and_cache : String → Io (App P R E) (Unit {0})
  remove_from_db_and_cache slug = on_pg (table.delete slug) >> Cache.del client runtime slug

  unfoldable pub delete_one_safely : Link → Io (App P R E) Bool
  unfolding remove_from_db_and_cache
  delete_one_safely link =
      catch (remove_from_db_and_cache link.short_url >> pure true) (λ err. pure false)

  -- The loop of `processBatch`, with its counter.
  unfoldable pub process_batch : List Link → ℕ → Io (App P R E) ℕ
  unfolding delete_one_safely
  process_batch [] count = pure count
  process_batch (link ∷ expired) count = do
    ok ← delete_one_safely link
    process_batch expired (if ok then suc count else count)

  unfoldable pub handle_cleanup : Io (App P R E) ℕ
  unfolding process_batch
  handle_cleanup = do
    now ← on_env runtime.now
    expired ← on_pg (table.find_expired now cleanup_batch_size)
    process_batch expired 0
