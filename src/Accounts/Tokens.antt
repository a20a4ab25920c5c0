-- ===== src/Accounts/Tokens.antt =====
-- crates/storage/src/tokens.rs: the methods of `TokenRepo`, but for `validate_token`.
use chenni_x_api.Prelude.Int.{ℤ, pos, negsuc, eqb_ℤ, ◌+ℤ◌}
use chenni_x_api.Prelude.Lists.{any, keep_if, find, is_empty}
use chenni_x_api.Prelude.Tests.{◌==◌, if◌then◌else◌}
use chenni_x_api.Prelude.{
  String, str_eq, Bool, not, ◌&&◌, Option, none, some, List, [], ◌∷◌, ◌++◌, map,
}
use mathlib.Core.Option
use chenni_x_api.Common.Text.{split, trim, is_blank}
use chenni_x_api.Common.Types.{RowId, TokenConfig}
use chenni_x_api.Common.Results.{ProxyResult, ok, err, Action}
use chenni_x_api.Storage.Table.{select, adjust_at}
use chenni_x_api.Accounts.{
  UserRow, TokenRow, Accounts, Violation, not_unique, foreign_key, next_id, has_id, taken, listed,
  unless, statement, reads,
}

-- The addresses of `allow_ips`.
unfoldable pub addresses : String → List String
unfolding split trim is_blank
addresses s = keep_if (λ ip. not (is_blank ip)) (map trim (split 44 s))

-- `parse` reads a JSON list of strings.
abbrev pub limits_of : (String → Option (List String)) → String → List String
limits_of parse s = if str_eq s "" then [] else elim (parse s) [ none ↦ [] | some models ↦ models ]

unfoldable pub map_token_row : (String → Option (List String)) → TokenRow → TokenConfig
unfolding addresses
map_token_row parse r = record {
  id = r.id;
  user_id = r.user_id;
  key = r.key;
  name = r.name;
  remain_quota = r.remain_quota;
  used_quota = r.used_quota;
  unlimited_quota = not (eqb_ℤ r.unlimited_quota (pos 0));
  expired_time = r.expired_time;
  model_limits_enabled = not (eqb_ℤ r.model_limits_enabled (pos 0));
  model_limits = Option.map (limits_of parse) r.model_limits;
  status = r.status;
  allow_ips = Option.map addresses r.allow_ips;
}

abbrev pub flag : Bool → ℤ
flag b = if b then pos 1 else pos 0

abbrev pub null_if_empty : String → Option String
null_if_empty s = if str_eq s "" then none else some s

-- `UPDATE tokens SET f WHERE id = k`.
abbrev pub set_token : RowId → (TokenRow → TokenRow) → Accounts → Accounts
set_token k f db = record db { tokens = adjust_at (λ (t : TokenRow). t.id) k f db.tokens }

abbrev pub drop_tokens : (TokenRow → Bool) → Accounts → Accounts
drop_tokens p db = record db { tokens = keep_if (λ (t : TokenRow). not (p t)) db.tokens }

abbrev pub token_is_logged : (TokenRow → Bool) → Accounts → Bool
token_is_logged p db = any (λ (t : TokenRow). p t && listed t.id db.logged_tokens) db.tokens

abbrev pub new_violation : RowId → String → Accounts → Option Violation
new_violation user_id key db =
    if taken (λ (t : TokenRow). t.key) key db.tokens
    then some (not_unique "tokens.key")
    else unless (not (has_id (λ (r : UserRow). r.id) user_id db.users)) foreign_key

-- The id that the statement gives.
unfoldable pub insert_token :
    Option String → (Violation → String) → (RowId → TokenRow) → Action Accounts RowId
unfolding statement
insert_token refusal explain row db =
    let id = next_id (λ (t : TokenRow). t.id) db.tokens in
    statement refusal explain (new_violation (row id).user_id (row id).key db) id
      (λ d. record d { tokens = d.tokens ++ row id ∷ [] }) db

abbrev pub plain_row : RowId → String → Option String → ℤ → Bool → RowId → TokenRow
plain_row user_id key name remain_quota unlimited_quota id = record {
  id = id;
  user_id = user_id;
  key = key;
  name = name;
  remain_quota = remain_quota;
  used_quota = pos 0;
  unlimited_quota = flag unlimited_quota;
  expired_time = negsuc 0;
  model_limits_enabled = pos 0;
  model_limits = none;
  status = pos 1;
  allow_ips = none;
}

abbrev pub full_row :
    RowId → String → String → ℤ → Bool → ℤ → String → Bool → String → RowId → TokenRow
full_row user_id name key remain_quota unlimited_quota expired_time model_limits
      model_limits_enabled allow_ips id =
    record {
      id = id;
      user_id = user_id;
      key = key;
      name = null_if_empty name;
      remain_quota = remain_quota;
      used_quota = pos 0;
      unlimited_quota = flag unlimited_quota;
      expired_time = expired_time;
      model_limits_enabled = flag model_limits_enabled;
      model_limits = null_if_empty model_limits;
      status = pos 1;
      allow_ips = null_if_empty allow_ips;
    }

module _ (refusal : Option String) (explain : Violation → String) where
  unfoldable pub create_token : RowId → String → Option String → ℤ → Bool → Action Accounts RowId
  unfolding insert_token
  create_token user_id key name remain_quota unlimited_quota =
      insert_token refusal explain (plain_row user_id key name remain_quota unlimited_quota)

  unfoldable pub create_token_full :
      RowId → String → String → ℤ → Bool → ℤ → String → Bool → String → Action Accounts RowId
  unfolding insert_token
  create_token_full user_id name key remain_quota unlimited_quota expired_time model_limits
        model_limits_enabled allow_ips =
      insert_token refusal explain (
        full_row user_id name key remain_quota unlimited_quota expired_time model_limits
          model_limits_enabled allow_ips)

  module _ (parse : String → Option (List String)) where
    unfoldable pub get_token_by_key : String → Action Accounts (Option TokenConfig)
    unfolding statement map_token_row
    get_token_by_key key db =
        reads refusal explain
          (Option.map (map_token_row parse) (find (λ t. str_eq t.key key) db.tokens)) db

    unfoldable pub get_token_by_id : RowId → Action Accounts (Option TokenConfig)
    unfolding statement map_token_row select
    get_token_by_id id db =
        reads refusal explain
          (Option.map (map_token_row parse) (select (λ (t : TokenRow). t.id) id db.tokens)) db

    unfoldable pub get_tokens_for_user : RowId → Action Accounts (List TokenConfig)
    unfolding statement map_token_row
    get_tokens_for_user user_id db =
        reads refusal explain
          (map (map_token_row parse) (keep_if (λ t. t.user_id == user_id) db.tokens)) db

    unfoldable pub list_tokens : Option RowId → Action Accounts (List TokenConfig)
    unfolding statement map_token_row get_tokens_for_user
    list_tokens none db = reads refusal explain (map (map_token_row parse) db.tokens) db
    list_tokens (some uid) db =
        reads refusal explain
          (map (map_token_row parse) (keep_if (λ t. t.user_id == uid) db.tokens)) db

  unfoldable pub get_remain_quota : RowId → Action Accounts (Option ℤ)
  unfolding statement select
  get_remain_quota id db =
      reads refusal explain
        (Option.map (λ (t : TokenRow). t.remain_quota)
          (select (λ (t : TokenRow). t.id) id db.tokens))
        db

  unfoldable pub update_remain_quota_delta : RowId → ℤ → Action Accounts Unit
  unfolding statement adjust_at ◌+ℤ◌
  update_remain_quota_delta id delta =
      statement refusal explain none tt
        (set_token id (λ t. record t { remain_quota = t.remain_quota +ℤ delta }))

  unfoldable pub update_used_quota_delta : RowId → ℤ → Action Accounts Unit
  unfolding statement adjust_at ◌+ℤ◌
  update_used_quota_delta id delta =
      statement refusal explain none tt
        (set_token id (λ t. record t { used_quota = t.used_quota +ℤ delta }))

  unfoldable pub update_status : RowId → ℤ → Action Accounts Unit
  unfolding statement adjust_at
  update_status id status =
      statement refusal explain none tt (set_token id (λ t. record t { status = status }))

  unfoldable pub store_limits : RowId → Bool → ProxyResult String → Action Accounts Unit
  unfolding statement adjust_at
  store_limits id enabled (err e) db = (err e, db)
  store_limits id enabled (ok json) db =
      statement refusal explain none tt
        (set_token id
          (λ t. record t { model_limits_enabled = flag enabled; model_limits = some json }))
        db

  -- `print` writes a list of strings as JSON, or fails.
  unfoldable pub set_model_limits :
      (List String → ProxyResult String) → RowId → Bool → List String → Action Accounts Unit
  unfolding store_limits
  set_model_limits print id enabled models =
      store_limits id enabled (if is_empty models then ok "[]" else print models)

  unfoldable pub update_token :
      RowId → String → ℤ → Bool → ℤ → String → Bool → String → ℤ → Action Accounts Unit
  unfolding statement adjust_at
  update_token id name remain_quota unlimited_quota expired_time model_limits model_limits_enabled
        allow_ips status =
      statement refusal explain none tt (
        set_token id (λ t. record t {
          name = null_if_empty name;
          remain_quota = remain_quota;
          unlimited_quota = flag unlimited_quota;
          expired_time = expired_time;
          model_limits_enabled = flag model_limits_enabled;
          model_limits = null_if_empty model_limits;
          allow_ips = null_if_empty allow_ips;
          status = status;
        }))

  unfoldable pub delete_where : (TokenRow → Bool) → Action Accounts Unit
  unfolding statement
  delete_where p db =
      statement refusal explain (unless (token_is_logged p db) foreign_key) tt (drop_tokens p) db

  unfoldable pub delete_token : RowId → RowId → Action Accounts Unit
  unfolding delete_where
  delete_token id user_id = delete_where (λ t. t.id == id && t.user_id == user_id)

  unfoldable pub delete_token_by_id : RowId → Action Accounts Unit
  unfolding delete_where
  delete_token_by_id id = delete_where (λ t. t.id == id)
