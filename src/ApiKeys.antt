-- ===== src/ApiKeys.antt =====
-- apps/api/src/api-keys/api-keys.service.ts with api-keys.controller.ts: creation under a monthly
-- quota, the list, revocation, and the check of a presented key. A key is `mk_` and 32 random bytes
-- in base64url; a presented one comes from a header, so each of its characters is one code unit.
pub mod Lifecycle
pub mod Guards
use Prim.Native.String
use mikrouli.Common.{ℕ, zero, suc, String, Bool, Option, none, some, List, map, leb, if◌then◌else◌}
use mikrouli.Http.{Exception, Result, ok, throw, monthly_key_limit_exceeded, not_found}
use mikrouli.Io.{App, Io, on_pg, on_env, pure, raise, catch, continue, ◌>>=◌, ◌>>◌}
use mikrouli.Services.{ApiKey, KeyTable, UserTable, Runtime}
use mikrouli.Usage.{Limits, count_keys_this_month, get_key_limit}

abbrev pub secret_bytes : ℕ
secret_bytes = 32

abbrev pub key_prefix_length : ℕ
key_prefix_length = 8

abbrev pub key_namespace : String
key_namespace = "mk_"

-- `s.slice(0, n)` and `s.slice(n)`
pub slice_to : ℕ → String → String
slice_to zero s = ""
slice_to (suc n) String.[] = ""
slice_to (suc n) (String.◌∷◌ c s) = String.◌∷◌ c (slice_to n s)

pub slice_from : ℕ → String → String
slice_from zero s = s
slice_from (suc n) String.[] = ""
slice_from (suc n) (String.◌∷◌ c s) = slice_from n s

unfoldable pub parse_prefix : String → String
unfolding slice_to slice_from
parse_prefix plaintext = slice_to key_prefix_length (slice_from 3 plaintext)

pub record ApiKeySummary : Type 0 where
  pub id : String
  pub label : String
  pub key_prefix : String
  pub created_at : ℕ
  pub last_used_at : Option ℕ
  pub revoked_at : Option ℕ

unfoldable pub extract_summary : ApiKey → ApiKeySummary
extract_summary key = record {
  id = key.id;
  label = key.label;
  key_prefix = key.key_prefix;
  created_at = key.created_at;
  last_used_at = key.last_used_at;
  revoked_at = key.revoked_at;
}

pub record CreatedApiKey : Type 0 where
  pub id : String
  pub label : String
  pub key : String
  pub key_prefix : String
  pub created_at : ℕ

abbrev pub build_created_result : ApiKey → String → String → CreatedApiKey
build_created_result saved key prefix = record {
  id = saved.id;
  label = saved.label;
  key = key;
  key_prefix = prefix;
  created_at = saved.created_at;
}

-- The plaintext and its prefix.
unfoldable pub generate_secret : {E : Type 0} → Runtime E → E → (String × String) × E
unfolding slice_to
generate_secret runtime e =
    let (random, e') = runtime.random_base64url secret_bytes e in
    ((String.◌++◌ key_namespace random, slice_to key_prefix_length random), e')

module _ {P R E : Type 0} (keys : KeyTable P) (users : UserTable P) (runtime : Runtime E) where
  -- What follows the check of the quota.
  unfoldable pub save_new_key : String → String → Io (App P R E) CreatedApiKey
  unfolding generate_secret
  save_new_key user_id label = do
    (plaintext, prefix) ← on_env (generate_secret runtime)
    key_hash ← on_env (runtime.bcrypt_hash plaintext)
    saved ← on_pg (keys.save user_id label key_hash prefix)
    pure (build_created_result saved plaintext prefix)

  unfoldable pub create_for_user : Limits → String → String → Io (App P R E) CreatedApiKey
  unfolding save_new_key
  create_for_user limits user_id label = do
    count ← count_keys_this_month runtime keys user_id
    limit ← get_key_limit users limits user_id
    if leb limit count then raise monthly_key_limit_exceeded else save_new_key user_id label

  unfoldable pub list_for_user : String → Io (App P R E) (List ApiKeySummary)
  unfolding extract_summary
  list_for_user user_id = do
    rows ← on_pg (keys.find_by_user user_id)
    pure (map extract_summary rows)

  unfoldable pub revoke : String → String → Io (App P R E) (Unit {0})
  revoke user_id id = do
    now ← on_env runtime.now
    affected ← on_pg (keys.revoke id user_id now)
    elim affected [
      | zero ↦ raise (not_found (String.◌++◌ (String.◌++◌ "API key " id) " not found"))
      | suc n ↦ pure tt
    ]

  -- The update is not awaited, and its failure is only logged.
  mark_used : String → Io (App P R E) (Unit {0})
  mark_used id = do now ← on_env runtime.now; catch (on_pg (keys.touch id now)) (λ err. pure tt)

  check_key : String → Option ApiKey → Io (App P R E) (Option String)
  unfolding mark_used
  check_key plaintext none = pure none
  check_key plaintext (some key) = do
    match ← on_env (runtime.bcrypt_compare plaintext key.key_hash)
    if match then mark_used key.id >> pure (some key.user_id) else pure none

  -- The owner of the key.
  unfoldable pub validate : String → Io (App P R E) (Option String)
  unfolding parse_prefix check_key
  validate plaintext = do
    key ← on_pg (keys.find_active (parse_prefix plaintext))
    check_key plaintext key
