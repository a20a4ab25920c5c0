-- ===== src/Accounts/Calls.antt =====
-- crates/storage/src/users.rs and tokens.rs: the calls of the methods that write.
use chenni_x_api.Prelude.Int.{ℤ}
use chenni_x_api.Prelude.{String, Bool, Option, List, [], ◌∷◌}
use chenni_x_api.Common.Types.{RowId}
use chenni_x_api.Common.Results.{ProxyResult}
use chenni_x_api.Accounts.{Accounts, Violation}
use chenni_x_api.Accounts.Users.{
  new_user, set_user, drop_user, user_is_logged, username_taken, create_user_with_quota,
  create_user, update_quota, update_password, update_user, delete_user,
}
use chenni_x_api.Accounts.Users
use chenni_x_api.Accounts.Tokens.{
  set_token, drop_tokens, token_is_logged, new_violation, insert_token, create_token,
  create_token_full, update_remain_quota_delta, set_model_limits, update_token, delete_where,
  delete_token, delete_token_by_id,
}
use chenni_x_api.Accounts.Tokens

-- A call of a method that writes, with its arguments.
pub data Call : Type 0 where
  creates_user : String → String → ℤ → String → Call
  creates_user_with_quota : String → String → ℤ → String → ℤ → Call
  updates_quota : RowId → ℤ → Call
  updates_user_used : RowId → ℤ → Call
  updates_user_status : RowId → ℤ → Call
  updates_password : RowId → String → Call
  updates_user : RowId → String → ℤ → ℤ → String → ℤ → Call
  deletes_user : RowId → Call
  creates_token : RowId → String → Option String → ℤ → Bool → Call
  creates_token_full : RowId → String → String → ℤ → Bool → ℤ → String → Bool → String → Call
  updates_remain : RowId → ℤ → Call
  updates_token_used : RowId → ℤ → Call
  updates_token_status : RowId → ℤ → Call
  sets_model_limits : RowId → Bool → List String → Call
  updates_token : RowId → String → ℤ → Bool → ℤ → String → Bool → String → ℤ → Call
  deletes_token : RowId → RowId → Call
  deletes_token_by_id : RowId → Call

module _ (explain : Violation → String) (print : List String → ProxyResult String) where
  -- The tables after a call, whatever it returns.
  unfoldable pub perform : Option String → Call → Accounts → Accounts
  unfolding create_user create_user_with_quota update_quota Users.update_used_quota_delta
      Users.update_status update_password update_user delete_user create_token create_token_full
      update_remain_quota_delta Tokens.update_used_quota_delta Tokens.update_status set_model_limits
      update_token delete_token delete_token_by_id
  perform e (creates_user u h r g) db = (create_user e explain u h r g db).1
  perform e (creates_user_with_quota u h r g q) db =
      (create_user_with_quota e explain u h r g q db).1
  perform e (updates_quota k q) db = (update_quota e explain k q db).1
  perform e (updates_user_used k d) db = (Users.update_used_quota_delta e explain k d db).1
  perform e (updates_user_status k s) db = (Users.update_status e explain k s db).1
  perform e (updates_password k h) db = (update_password e explain k h db).1
  perform e (updates_user k u r s g q) db = (update_user e explain k u r s g q db).1
  perform e (deletes_user k) db = (delete_user e explain k db).1
  perform e (creates_token u k n r l) db = (create_token e explain u k n r l db).1
  perform e (creates_token_full u n k r l x m b i) db =
      (create_token_full e explain u n k r l x m b i db).1
  perform e (updates_remain k d) db = (update_remain_quota_delta e explain k d db).1
  perform e (updates_token_used k d) db = (Tokens.update_used_quota_delta e explain k d db).1
  perform e (updates_token_status k s) db = (Tokens.update_status e explain k s db).1
  perform e (sets_model_limits k b m) db = (set_model_limits e explain print k b m db).1
  perform e (updates_token k n r l x m b i s) db = (update_token e explain k n r l x m b i s db).1
  perform e (deletes_token k u) db = (delete_token e explain k u db).1
  perform e (deletes_token_by_id k) db = (delete_token_by_id e explain k db).1

  -- Each call with what SQLite answers to its statement.
  unfoldable pub perform_all : List (Option String × Call) → Accounts → Accounts
  unfolding perform
  perform_all [] db = db
  perform_all ((e, c) ∷ cs) db = perform_all cs (perform e c db)
