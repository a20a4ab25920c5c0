-- ===== src/Accounts/Soundness.antt =====
-- crates/storage/src/users.rs and tokens.rs: their calls keep the tables sound.
use chenni_x_api.Prelude.Int.{ℤ, pos}
use chenni_x_api.Prelude.Lists.{is_empty}
use chenni_x_api.Prelude.Tests.{◌==◌, Bool-cases, if◌then◌else◌}
use chenni_x_api.Prelude.{
  ℕ, ◌≡◌, refl, String, Bool, true, false, ◌&&◌, Option, none, List, [], ◌∷◌, ◌++◌, inl, inr, arith,
}
use chenni_x_api.Common.Types.{RowId}
use chenni_x_api.Common.Results.{ProxyResult, ok, err}
use chenni_x_api.Storage.Table.{adjust_at}
use chenni_x_api.Accounts.{
  UserRow, TokenRow, Accounts, Violation, next_id, has_id, taken, taken_elsewhere, unless,
  foreign_key, statement,
}
use chenni_x_api.Accounts.Users.{
  new_user, set_user, drop_user, user_is_logged, username_taken, create_user_with_quota,
  create_user, update_quota, update_password, update_user, delete_user,
}
use chenni_x_api.Accounts.Users
use chenni_x_api.Accounts.Tokens.{
  store_limits, plain_row, full_row, set_token, drop_tokens, token_is_logged, new_violation,
  insert_token, create_token, create_token_full, update_remain_quota_delta, set_model_limits,
  update_token, delete_where, delete_token, delete_token_by_id,
}
use chenni_x_api.Accounts.Tokens
use chenni_x_api.Accounts.Rows.{
  Distinct, adjust_at-Distinct, adjust_at-Distinct_renamed, adjust_at-absent,
}
use chenni_x_api.Accounts.Integrity.{
  user_id_of, token_id_of, name_of, key_of, IsSound, statement-IsSound, set_user-IsSound,
  set_token-IsSound, add_user-IsSound, add_token-IsSound, drop_tokens-IsSound, drop_user-IsSound,
}
use chenni_x_api.Accounts.Calls.{
  Call, perform, perform_all, creates_user, creates_user_with_quota, updates_quota,
  updates_user_used, updates_user_status, updates_password, updates_user, deletes_user,
  creates_token, creates_token_full, updates_remain, updates_token_used, updates_token_status,
  sets_model_limits, updates_token, deletes_token, deletes_token_by_id,
}

unless-none : (b : Bool) (v : Violation) → unless b v ≡ none → b ≡ false
unless-none true v h = ground arith
unless-none false v h = refl

new_violation-none :
    (user_id : RowId) (key : String) (db : Accounts)
    → new_violation user_id key db ≡ none
    → (taken key_of key db.tokens ≡ false) × (has_id user_id_of user_id db.users ≡ true)
new_violation-none user_id key db h = ground arith

renamed-Distinct :
    (k : ℕ) (f : UserRow → UserRow) (s : String) (db : Accounts)
    → ((r : UserRow) → name_of (f r) ≡ s)
    → IsSound db
    → (has_id user_id_of k db.users && taken_elsewhere user_id_of name_of k s db.users) ≡ false
    → Distinct name_of (adjust_at user_id_of k f db.users)
renamed-Distinct k f s db names sound n = elim (Bool-cases (has_id user_id_of k db.users)) [
  | inl e ↦
      adjust_at-Distinct_renamed user_id_of name_of f k s names db.users sound.user_ids
        (ground (arith, n, e)) sound.usernames
  | inr e ↦ rw (adjust_at-absent user_id_of k f db.users e) sound.usernames
]

module _ (explain : Violation → String) (print : List String → ProxyResult String) where
  set_user_call :
      (e : Option String) (k : ℕ) (f : UserRow → UserRow) (db : Accounts)
      → ((r : UserRow) → user_id_of (f r) ≡ user_id_of r)
      → ((r : UserRow) → name_of (f r) ≡ name_of r)
      → IsSound db
      → IsSound (statement e explain none tt (set_user k f) db).1
  set_user_call e k f db keeps same s =
      statement-IsSound e explain none tt (set_user k f) db s (λ _.
        set_user-IsSound k f db keeps
          (adjust_at-Distinct user_id_of f keeps name_of same k db.users s.usernames) s)

  set_token_call :
      (e : Option String) (k : ℕ) (f : TokenRow → TokenRow) (db : Accounts)
      → ((t : TokenRow) → token_id_of (f t) ≡ token_id_of t)
      → ((t : TokenRow) → key_of (f t) ≡ key_of t)
      → ((t : TokenRow) → (f t).user_id ≡ t.user_id)
      → IsSound db
      → IsSound (statement e explain none tt (set_token k f) db).1
  set_token_call e k f db keeps same owner s =
      statement-IsSound e explain none tt (set_token k f) db s
        (λ _. set_token-IsSound k f db keeps same owner s)

  create_user_call :
      (e : Option String) (u h : String) (r : ℤ) (g : String) (q : ℤ) (db : Accounts)
      → IsSound db
      → IsSound (create_user_with_quota e explain u h r g q db).1
  unfolding create_user_with_quota
  create_user_call e u h r g q db s =
      let row = new_user u h r g q db in
      statement-IsSound e explain (unless (taken name_of u db.users) username_taken) row.id
        (λ d. record d { users = d.users ++ row ∷ [] }) db s
        (λ n.
          add_user-IsSound row db refl (unless-none (taken name_of u db.users) username_taken n) s)

  insert_token_call :
      (e : Option String) (row : RowId → TokenRow) (db : Accounts)
      → ((k : RowId) → (row k).id ≡ k)
      → IsSound db
      → IsSound (insert_token e explain row db).1
  unfolding insert_token
  insert_token_call e row db keyed s =
      let id = next_id token_id_of db.tokens in
      statement-IsSound e explain (new_violation (row id).user_id (row id).key db) id
        (λ d. record d { tokens = d.tokens ++ row id ∷ [] }) db s
        (λ n.
          let (free, owned) = new_violation-none (row id).user_id (row id).key db n in
          add_token-IsSound (row id) db (keyed id) free owned s)

  delete_call :
      (e : Option String) (p : TokenRow → Bool) (db : Accounts)
      → IsSound db
      → IsSound (delete_where e explain p db).1
  unfolding delete_where
  delete_call e p db s =
      statement-IsSound e explain (unless (token_is_logged p db) foreign_key) tt (drop_tokens p) db
        s (λ n. drop_tokens-IsSound p db (unless-none (token_is_logged p db) foreign_key n) s)

  store_limits_call :
      (e : Option String) (k : RowId) (b : Bool) (json : ProxyResult String) (db : Accounts)
      → IsSound db
      → IsSound (store_limits e explain k b json db).1
  unfolding store_limits
  store_limits_call e k b (err x) db s = s
  store_limits_call e k b (ok json) db s =
      set_token_call e k _ db (λ _. refl) (λ _. refl) (λ _. refl) s

  perform-IsSound :
      (e : Option String) (c : Call) (db : Accounts)
      → IsSound db
      → IsSound (perform explain print e c db)
  unfolding perform create_user set_model_limits create_user_with_quota update_quota
      Users.update_used_quota_delta Users.update_status update_password update_user delete_user
      create_token create_token_full update_remain_quota_delta Tokens.update_used_quota_delta
      Tokens.update_status update_token delete_token delete_token_by_id
  perform-IsSound e (creates_user u h r g) db s = create_user_call e u h r g (pos 0) db s
  perform-IsSound e (creates_user_with_quota u h r g q) db s = create_user_call e u h r g q db s
  perform-IsSound e (updates_quota k q) db s = set_user_call e k _ db (λ _. refl) (λ _. refl) s
  perform-IsSound e (updates_user_used k d) db s = set_user_call e k _ db (λ _. refl) (λ _. refl) s
  perform-IsSound e (updates_user_status k x) db s =
      set_user_call e k _ db (λ _. refl) (λ _. refl) s
  perform-IsSound e (updates_password k h) db s = set_user_call e k _ db (λ _. refl) (λ _. refl) s
  perform-IsSound e (updates_user k u r x g q) db s =
      statement-IsSound e explain _ tt (set_user k _) db s (λ n.
        set_user-IsSound k _ db (λ _. refl)
          (renamed-Distinct k _ u db (λ _. refl) s
            (unless-none
              (has_id user_id_of k db.users && taken_elsewhere user_id_of name_of k u db.users)
              username_taken n))
          s)
  perform-IsSound e (deletes_user k) db s =
      statement-IsSound e explain (unless (user_is_logged k db) foreign_key) tt (drop_user k) db s
        (λ n. drop_user-IsSound k db (unless-none (user_is_logged k db) foreign_key n) s)
  perform-IsSound e (creates_token u k n r l) db s =
      insert_token_call e (plain_row u k n r l) db (λ _. refl) s
  perform-IsSound e (creates_token_full u n k r l x m b i) db s =
      insert_token_call e (full_row u n k r l x m b i) db (λ _. refl) s
  perform-IsSound e (updates_remain k d) db s =
      set_token_call e k _ db (λ _. refl) (λ _. refl) (λ _. refl) s
  perform-IsSound e (updates_token_used k d) db s =
      set_token_call e k _ db (λ _. refl) (λ _. refl) (λ _. refl) s
  perform-IsSound e (updates_token_status k x) db s =
      set_token_call e k _ db (λ _. refl) (λ _. refl) (λ _. refl) s
  perform-IsSound e (sets_model_limits k b m) db s =
      store_limits_call e k b (if is_empty m then ok "[]" else print m) db s
  perform-IsSound e (updates_token k n r l x m b i st) db s =
      set_token_call e k _ db (λ _. refl) (λ _. refl) (λ _. refl) s
  perform-IsSound e (deletes_token k u) db s = delete_call e (λ t. t.id == k && t.user_id == u) db s
  perform-IsSound e (deletes_token_by_id k) db s = delete_call e (λ t. t.id == k) db s

  -- After any calls that write users and tokens, each of which SQLite may refuse, sound tables are
  -- sound: ids ascend, user names and keys are distinct, every token has its user, and what the
  -- usage log refers to exists.
  pub perform_all-IsSound :
      (calls : List (Option String × Call)) (db : Accounts)
      → IsSound db
      → IsSound (perform_all explain print calls db)
  unfolding perform_all
  perform_all-IsSound [] db s = s
  perform_all-IsSound ((e, c) ∷ cs) db s =
      perform_all-IsSound cs (perform explain print e c db) (perform-IsSound e c db s)
