-- ===== src/Accounts/Users.antt =====
-- crates/storage/src/users.rs: the methods of `UserRepo`.
use chenni_x_api.Prelude.Int.{ℤ, pos, ◌+ℤ◌}
use chenni_x_api.Prelude.Lists.{any, keep_if, find, length}
use chenni_x_api.Prelude.Tests.{◌==◌}
use chenni_x_api.Prelude.{
  ℕ, String, str_eq, Bool, not, ◌&&◌, ◌||◌, Option, none, List, [], ◌∷◌, ◌++◌, map,
}
use mathlib.Core.Option
use chenni_x_api.Common.Types.{RowId, UserConfig}
use chenni_x_api.Common.Results.{Action}
use chenni_x_api.Storage.Table.{select, adjust_at}
use chenni_x_api.Accounts.{
  UserRow, TokenRow, Accounts, Violation, not_unique, foreign_key, next_id, has_id, taken,
  taken_elsewhere, listed, unless, statement, reads,
}

abbrev pub map_user_row : UserRow → UserConfig
map_user_row r = record {
  id = r.id;
  username = r.username;
  role = r.role;
  status = r.status;
  quota = r.quota;
  used_quota = r.used_quota;
  group = r.group;
}

abbrev pub username_taken : Violation
username_taken = not_unique "users.username"

abbrev pub new_user : String → String → ℤ → String → ℤ → Accounts → UserRow
new_user username password_hash role group quota db = record {
  id = next_id (λ (r : UserRow). r.id) db.users;
  username = username;
  password_hash = password_hash;
  role = role;
  status = pos 1;
  quota = quota;
  used_quota = pos 0;
  group = group;
}

-- `UPDATE users SET f WHERE id = k`.
abbrev pub set_user : RowId → (UserRow → UserRow) → Accounts → Accounts
set_user k f db = record db { users = adjust_at (λ (r : UserRow). r.id) k f db.users }

-- `ON DELETE CASCADE`.
abbrev pub drop_user : RowId → Accounts → Accounts
drop_user k db = record db {
  users = keep_if (λ (r : UserRow). not (r.id == k)) db.users;
  tokens = keep_if (λ (t : TokenRow). not (t.user_id == k)) db.tokens;
}

-- A row of `usage_logs` refers to the user, or to a token that goes with it.
abbrev pub user_is_logged : RowId → Accounts → Bool
user_is_logged k db =
    listed k db.logged_users
    || any (λ (t : TokenRow). t.user_id == k && listed t.id db.logged_tokens) db.tokens

module _ (refusal : Option String) (explain : Violation → String) where
  unfoldable pub count_users : Action Accounts ℕ
  unfolding statement
  count_users db = reads refusal explain (length db.users) db

  unfoldable pub create_user_with_quota : String → String → ℤ → String → ℤ → Action Accounts RowId
  unfolding statement
  create_user_with_quota username password_hash role group quota db =
      let row = new_user username password_hash role group quota db in
      statement refusal explain
        (unless (taken (λ (r : UserRow). r.username) username db.users) username_taken) row.id
        (λ d. record d { users = d.users ++ row ∷ [] }) db

  -- The columns that the statement leaves out have their defaults.
  unfoldable pub create_user : String → String → ℤ → String → Action Accounts RowId
  unfolding create_user_with_quota
  create_user username password_hash role group =
      create_user_with_quota username password_hash role group (pos 0)

  unfoldable pub get_user_by_id : RowId → Action Accounts (Option UserConfig)
  unfolding statement select
  get_user_by_id id db =
      reads refusal explain (Option.map map_user_row (select (λ (r : UserRow). r.id) id db.users))
        db

  unfoldable pub get_user_by_username : String → Action Accounts (Option UserConfig)
  unfolding statement
  get_user_by_username username db =
      reads refusal explain
        (Option.map map_user_row (find (λ r. str_eq r.username username) db.users)) db

  unfoldable pub list_users : Action Accounts (List UserConfig)
  unfolding statement
  list_users db = reads refusal explain (map map_user_row db.users) db

  unfoldable pub get_quota : RowId → Action Accounts (Option ℤ)
  unfolding statement select
  get_quota id db =
      reads refusal explain
        (Option.map (λ (r : UserRow). r.quota) (select (λ (r : UserRow). r.id) id db.users)) db

  unfoldable pub get_password_hash : String → Action Accounts (Option String)
  unfolding statement
  get_password_hash username db =
      reads refusal explain
        (Option.map (λ (r : UserRow). r.password_hash)
          (find (λ r. str_eq r.username username) db.users))
        db

  unfoldable pub update_quota : RowId → ℤ → Action Accounts Unit
  unfolding statement adjust_at
  update_quota id new_quota =
      statement refusal explain none tt (set_user id (λ r. record r { quota = new_quota }))

  unfoldable pub update_used_quota_delta : RowId → ℤ → Action Accounts Unit
  unfolding statement adjust_at ◌+ℤ◌
  update_used_quota_delta id delta =
      statement refusal explain none tt
        (set_user id (λ r. record r { used_quota = r.used_quota +ℤ delta }))

  unfoldable pub update_status : RowId → ℤ → Action Accounts Unit
  unfolding statement adjust_at
  update_status id status =
      statement refusal explain none tt (set_user id (λ r. record r { status = status }))

  unfoldable pub update_password : RowId → String → Action Accounts Unit
  unfolding statement adjust_at
  update_password id password_hash =
      statement refusal explain none tt
        (set_user id (λ r. record r { password_hash = password_hash }))

  unfoldable pub update_user : RowId → String → ℤ → ℤ → String → ℤ → Action Accounts Unit
  unfolding statement adjust_at
  update_user id username role status group quota db =
      statement refusal explain
        (unless
          (has_id (λ (r : UserRow). r.id) id db.users
            && taken_elsewhere (λ (r : UserRow). r.id) (λ r. r.username) id username db.users)
          username_taken)
        tt
        (set_user id (λ r. record r {
          username = username;
          role = role;
          status = status;
          group = group;
          quota = quota;
        }))
        db

  unfoldable pub delete_user : RowId → Action Accounts Unit
  unfolding statement
  delete_user id db =
      statement refusal explain (unless (user_is_logged id db) foreign_key) tt (drop_user id) db
