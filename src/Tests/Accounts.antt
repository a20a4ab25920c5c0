-- ===== src/Tests/Accounts.antt =====
-- The accounts: two users, of whom one has a token and one is in the usage log.
use chenni_x_api.Prelude.Int.{pos, negsuc}
use chenni_x_api.Prelude.Maps.{string_eq}
use chenni_x_api.Prelude.{
  ℕ, ◌≡◌, refl, String, str_eq, true, false, Option, none, some, List, [], ◌∷◌, arith,
}
use chenni_x_api.Common.Errors.{storage}
use chenni_x_api.Common.Results.{ProxyResult, ok, err}
use chenni_x_api.Auth.{validate_token}
use chenni_x_api.Accounts.{
  UserRow, TokenRow, Accounts, Violation, not_unique, foreign_key, next_id, statement,
}
use chenni_x_api.Accounts.Users.{delete_user, create_user}
use chenni_x_api.Accounts.Tokens.{
  map_token_row, create_token_full, get_token_by_key, get_token_by_id, addresses,
}
use chenni_x_api.Accounts.Integrity.{IsSound}
use chenni_x_api.Accounts.Calls.{
  perform_all, creates_user, deletes_user, creates_token, updates_user,
}
use chenni_x_api.Accounts.Soundness.{perform_all-IsSound}
use chenni_x_api.Accounts.Revocation.{auth_db, delete_user-revokes}
use chenni_x_api.Accounts.Creation.{described, create_token_full-described}

abbrev user_named : ℕ → String → UserRow
user_named id name = record {
  id = id;
  username = name;
  password_hash = "hash";
  role = pos 1;
  status = pos 1;
  quota = pos 100;
  used_quota = pos 0;
  group = "default";
}

abbrev token : TokenRow
token = record {
  id = 5;
  user_id = 1;
  key = "sk-a";
  name = none;
  remain_quota = pos 10;
  used_quota = pos 0;
  unlimited_quota = pos 0;
  expired_time = negsuc 0;
  model_limits_enabled = pos 0;
  model_limits = none;
  status = pos 1;
  allow_ips = none;
}

abbrev accounts : Accounts
accounts = record {
  users = user_named 1 "anna" ∷ user_named 2 "ben" ∷ [];
  tokens = token ∷ [];
  logged_users = 2 ∷ [];
  logged_tokens = [];
}

abbrev says : Violation → String
says (not_unique column) = column
says foreign_key = "FOREIGN KEY constraint failed"

abbrev no_json : String → Option (List String)
no_json _ = none

abbrev prints : List String → ProxyResult String
prints _ = ok "[]"

accounts-IsSound : IsSound accounts
accounts-IsSound = record {
  user_ids = ground arith;
  token_ids = ground arith;
  usernames = ground arith;
  keys = ground arith;
  owners = ground arith;
  user_logs = ground arith;
  token_logs = tt;
}

-- The id of a deleted user is given to the next one.
id_again :
    (create_user none says "carl" "hash"
      (pos 1)
      "default"
      (delete_user none says 2 record accounts { logged_users = [] }).1).0
    ≡ ok 2
unfolding create_user delete_user statement
id_again = refl

logged_user_stays : delete_user none says 2 accounts ≡ (err (storage (says foreign_key)), accounts)
unfolding delete_user statement
logged_user_stays = refl

perform_all-IsSound_example : IsSound (
    perform_all says prints
      ((none, creates_user "carl" "hash" (pos 1) "default")
        ∷ (none, updates_user 3 "anna" (pos 1) (pos 1) "default" (pos 0))
        ∷ (some "disk I/O error", deletes_user 1)
        ∷ (none, deletes_user 1)
        ∷ (none, creates_token 3 "sk-b" none (pos 7) false)
        ∷ [])
      accounts)
perform_all-IsSound_example =
    perform_all-IsSound says prints
      ((none, creates_user "carl" "hash" (pos 1) "default")
        ∷ (none, updates_user 3 "anna" (pos 1) (pos 1) "default" (pos 0))
        ∷ (some "disk I/O error", deletes_user 1)
        ∷ (none, deletes_user 1)
        ∷ (none, creates_token 3 "sk-b" none (pos 7) false)
        ∷ [])
      accounts accounts-IsSound

delete_user-revokes_example :
    (let (r, after) = delete_user none says 1 accounts in
      (r ≡ ok tt) × (validate_token (auth_db no_json after) (pos 0) "sk-a" none ≡ ok none))
unfolding map_token_row
delete_user-revokes_example =
    delete_user-revokes no_json (pos 0) none says 1 accounts accounts-IsSound (ground arith) "sk-a"

create_token_full-described_example :
    (let id = next_id (λ (t : TokenRow). t.id) accounts.tokens in
      let (created, after) =
        create_token_full none says 2 "mine" "sk-c"
          (pos 9)
          true
          (negsuc 0)
          ""
          false
          "10.0.0.1, 10.0.0.2"
          accounts in
      (created ≡ ok id)
      × (get_token_by_key none says no_json "sk-c" after ≡ (
        ok (
            some (
              described no_json 2 "mine" "sk-c"
                (pos 9)
                true
                (negsuc 0)
                ""
                false
                "10.0.0.1, 10.0.0.2"
                id)),
        after,
      ))
      × (get_token_by_id none says no_json id after ≡ (
        ok (
            some (
              described no_json 2 "mine" "sk-c"
                (pos 9)
                true
                (negsuc 0)
                ""
                false
                "10.0.0.1, 10.0.0.2"
                id)),
        after,
      ))
      × ((other : String)
          → str_eq "sk-c" other ≡ false
          → (get_token_by_key none says no_json other after).0
            ≡ (get_token_by_key none says no_json other accounts).0))
create_token_full-described_example =
    create_token_full-described says no_json 2 "mine" "sk-c" (pos 9) true (negsuc 0) "" false
      "10.0.0.1, 10.0.0.2" accounts (ground arith) (ground arith)

two_addresses : addresses "10.0.0.1, 10.0.0.2," ≡ "10.0.0.1" ∷ "10.0.0.2" ∷ []
unfolding addresses
two_addresses = refl
