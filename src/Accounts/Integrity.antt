-- ===== src/Accounts/Integrity.antt =====
-- crates/storage/src/users.rs and tokens.rs: the tables after any calls of their methods.
use chenni_x_api.Prelude.Lists.{All, All-mono, All-keep_if, All-append, keep_if}
use chenni_x_api.Prelude.Tests.{◌==◌}
use chenni_x_api.Prelude.{
  ℕ, ◌≡◌, refl, String, Bool, true, false, not, Option, none, some, List, [], ◌∷◌, ◌++◌, arith,
}
use chenni_x_api.Storage.Table.{adjust_at}
use chenni_x_api.Accounts.{
  UserRow, TokenRow, Accounts, Violation, next_id, has_id, taken, statement,
}
use chenni_x_api.Accounts.Users.{set_user, drop_user, user_is_logged}
use chenni_x_api.Accounts.Tokens.{set_token, drop_tokens, token_is_logged}
use chenni_x_api.Accounts.Rows.{
  Distinct, Ascending, append-Distinct, keep_if-Distinct, next_id-lt, append-Ascending,
  keep_if-Ascending, has_id-append, All-kept, All-adjusted, adjust_at-Ascending, adjust_at-Distinct,
  has_id-adjust_at, logged_kept, listed_kept, other_kept,
}

abbrev pub user_id_of : UserRow → ℕ
user_id_of r = r.id

abbrev pub token_id_of : TokenRow → ℕ
token_id_of t = t.id

abbrev pub name_of : UserRow → String
name_of r = r.username

abbrev pub key_of : TokenRow → String
key_of t = t.key

-- The user of a token exists.
abbrev pub Owned : List UserRow → TokenRow → Type 0
Owned users t = has_id user_id_of t.user_id users ≡ true

-- What the schema promises: ids ascend, names and keys are distinct, references have a target.
pub record IsSound (db : Accounts) : Type 0 where
  pub user_ids : Ascending user_id_of db.users
  pub token_ids : Ascending token_id_of db.tokens
  pub usernames : Distinct name_of db.users
  pub keys : Distinct key_of db.tokens
  pub owners : All (Owned db.users) db.tokens
  pub user_logs : All (λ k. has_id user_id_of k db.users ≡ true) db.logged_users
  pub token_logs : All (λ k. has_id token_id_of k db.tokens ≡ true) db.logged_tokens

-- A statement is safe where the tables after it are sound, if it is no violation.
pub statement-IsSound :
    (refusal : Option String) (explain : Violation → String) {A : Type 0} (v : Option Violation)
    (a : A) (f : Accounts → Accounts) (db : Accounts)
    → IsSound db
    → (v ≡ none → IsSound (f db))
    → IsSound (statement refusal explain v a f db).1
unfolding statement
statement-IsSound (some e) explain v a f db s h = s
statement-IsSound none explain (some w) a f db s h = s
statement-IsSound none explain none a f db s h = h refl

-- A change of a row that keeps what others refer to.
pub set_user-IsSound :
    (k : ℕ) (f : UserRow → UserRow) (db : Accounts)
    → ((r : UserRow) → user_id_of (f r) ≡ user_id_of r)
    → Distinct name_of (adjust_at user_id_of k f db.users)
    → IsSound db
    → IsSound (set_user k f db)
set_user-IsSound k f db keeps names s = record {
  user_ids = adjust_at-Ascending user_id_of f keeps k db.users s.user_ids;
  token_ids = s.token_ids;
  usernames = names;
  keys = s.keys;
  owners =
      All-mono (Owned db.users) (Owned (set_user k f db).users)
        (λ t h. rw (has_id-adjust_at user_id_of f keeps t.user_id k db.users) h) db.tokens s.owners;
  user_logs =
      All-mono (λ j. has_id user_id_of j db.users ≡ true)
        (λ j. has_id user_id_of j (adjust_at user_id_of k f db.users) ≡ true)
        (λ j h. rw (has_id-adjust_at user_id_of f keeps j k db.users) h) db.logged_users
        s.user_logs;
  token_logs = s.token_logs;
}

pub set_token-IsSound :
    (k : ℕ) (f : TokenRow → TokenRow) (db : Accounts)
    → ((t : TokenRow) → token_id_of (f t) ≡ token_id_of t)
    → ((t : TokenRow) → key_of (f t) ≡ key_of t)
    → ((t : TokenRow) → (f t).user_id ≡ t.user_id)
    → IsSound db
    → IsSound (set_token k f db)
set_token-IsSound k f db keeps same owner s = record {
  user_ids = s.user_ids;
  token_ids = adjust_at-Ascending token_id_of f keeps k db.tokens s.token_ids;
  usernames = s.usernames;
  keys = adjust_at-Distinct token_id_of f keeps key_of same k db.tokens s.keys;
  owners = All-adjusted token_id_of f (Owned db.users) (λ t h. rw (owner t) h) k db.tokens s.owners;
  user_logs = s.user_logs;
  token_logs =
      All-mono (λ j. has_id token_id_of j db.tokens ≡ true)
        (λ j. has_id token_id_of j (adjust_at token_id_of k f db.tokens) ≡ true)
        (λ j h. rw (has_id-adjust_at token_id_of f keeps j k db.tokens) h) db.logged_tokens
        s.token_logs;
}

pub add_user-IsSound :
    (row : UserRow) (db : Accounts)
    → row.id ≡ next_id user_id_of db.users
    → taken name_of row.username db.users ≡ false
    → IsSound db
    → IsSound (record db { users = db.users ++ row ∷ [] })
add_user-IsSound row db new free s = record {
  user_ids =
      append-Ascending user_id_of db.users row (rw new (next_id-lt user_id_of 0 db.users))
        s.user_ids;
  token_ids = s.token_ids;
  usernames = append-Distinct name_of db.users row free s.usernames;
  keys = s.keys;
  owners =
      All-mono (Owned db.users) (Owned (db.users ++ row ∷ []))
        (λ t h. has_id-append user_id_of t.user_id db.users row h) db.tokens s.owners;
  user_logs =
      All-mono (λ j. has_id user_id_of j db.users ≡ true)
        (λ j. has_id user_id_of j (db.users ++ row ∷ []) ≡ true)
        (λ j h. has_id-append user_id_of j db.users row h) db.logged_users s.user_logs;
  token_logs = s.token_logs;
}

pub add_token-IsSound :
    (row : TokenRow) (db : Accounts)
    → row.id ≡ next_id token_id_of db.tokens
    → taken key_of row.key db.tokens ≡ false
    → Owned db.users row
    → IsSound db
    → IsSound (record db { tokens = db.tokens ++ row ∷ [] })
add_token-IsSound row db new free owned s = record {
  user_ids = s.user_ids;
  token_ids =
      append-Ascending token_id_of db.tokens row (rw new (next_id-lt token_id_of 0 db.tokens))
        s.token_ids;
  usernames = s.usernames;
  keys = append-Distinct key_of db.tokens row free s.keys;
  owners = All-append (Owned db.users) db.tokens (row ∷ []) s.owners (owned, tt);
  user_logs = s.user_logs;
  token_logs =
      All-mono (λ j. has_id token_id_of j db.tokens ≡ true)
        (λ j. has_id token_id_of j (db.tokens ++ row ∷ []) ≡ true)
        (λ j h. has_id-append token_id_of j db.tokens row h) db.logged_tokens s.token_logs;
}

pub drop_tokens-IsSound :
    (p : TokenRow → Bool) (db : Accounts)
    → token_is_logged p db ≡ false
    → IsSound db
    → IsSound (drop_tokens p db)
drop_tokens-IsSound p db n s = record {
  user_ids = s.user_ids;
  token_ids = keep_if-Ascending token_id_of (λ t. not (p t)) db.tokens s.token_ids;
  usernames = s.usernames;
  keys = keep_if-Distinct key_of (λ t. not (p t)) db.tokens s.keys;
  owners = All-kept (Owned db.users) (λ t. not (p t)) db.tokens s.owners;
  user_logs = s.user_logs;
  token_logs = logged_kept token_id_of p db.tokens db.logged_tokens n s.token_logs;
}

kept_owner :
    (k : ℕ) (users : List UserRow) (t : TokenRow)
    → Owned users t
    → not (t.user_id == k) ≡ true
    → Owned (keep_if (λ (r : UserRow). not (r.id == k)) users) t
kept_owner k users t h n = other_kept user_id_of t.user_id k users (ground (arith, n)) h

pub drop_user-IsSound :
    (k : ℕ) (db : Accounts) → user_is_logged k db ≡ false → IsSound db → IsSound (drop_user k db)
drop_user-IsSound k db n s = record {
  user_ids = keep_if-Ascending user_id_of (λ r. not (r.id == k)) db.users s.user_ids;
  token_ids = keep_if-Ascending token_id_of (λ t. not (t.user_id == k)) db.tokens s.token_ids;
  usernames = keep_if-Distinct name_of (λ r. not (r.id == k)) db.users s.usernames;
  keys = keep_if-Distinct key_of (λ t. not (t.user_id == k)) db.tokens s.keys;
  owners =
      All-keep_if (Owned (drop_user k db).users) (Owned db.users) (λ t. not (t.user_id == k))
        (kept_owner k db.users) db.tokens s.owners;
  user_logs = listed_kept user_id_of k db.users db.logged_users (ground (arith, n)) s.user_logs;
  token_logs =
      logged_kept token_id_of (λ t. t.user_id == k) db.tokens db.logged_tokens (ground (arith, n))
        s.token_logs;
}
