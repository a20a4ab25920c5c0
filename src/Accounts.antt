-- ===== src/Accounts.antt =====
-- crates/storage/src/users.rs and tokens.rs: the users and their tokens, on the tables of
-- crates/storage/src/schema.rs. The columns `created_at` and `updated_at`, which nothing here
-- reads, are left out.
pub mod Users
pub mod Tokens
pub mod Rows
pub mod Integrity
pub mod Calls
pub mod Soundness
pub mod Revocation
pub mod Creation
use chenni_x_api.Prelude.Int.{ℤ, pos, ◌+ℤ◌}
use chenni_x_api.Prelude.Lists.{any, keep_if, find, length}
use chenni_x_api.Prelude.Tests.{◌==◌, leb, if◌then◌else◌}
use chenni_x_api.Prelude.{
  ℕ, suc, String, str_eq, Bool, true, false, not, ◌&&◌, ◌||◌, Option, none, some, List, [], ◌∷◌,
  ◌++◌, map,
}
use chenni_x_api.Common.Types.{RowId, UserConfig}
use chenni_x_api.Common.Errors.{storage}
use chenni_x_api.Common.Results.{ProxyResult, ok, err, Action}
use chenni_x_api.Storage.Table.{select, adjust_at}

pub record UserRow : Type 0 where
  pub id : RowId
  pub username : String
  pub password_hash : String
  pub role : ℤ
  pub status : ℤ
  pub quota : ℤ
  pub used_quota : ℤ
  pub group : String

-- The flags of a token are integers here.
pub record TokenRow : Type 0 where
  pub id : RowId
  pub user_id : RowId
  pub key : String
  pub name : Option String
  pub remain_quota : ℤ
  pub used_quota : ℤ
  pub unlimited_quota : ℤ
  pub expired_time : ℤ
  pub model_limits_enabled : ℤ
  pub model_limits : Option String
  pub status : ℤ
  pub allow_ips : Option String

-- The tables, by ascending ids as SQLite keeps them, and what refers to them in `usage_logs`.
pub record Accounts : Type 0 where
  pub users : List UserRow
  pub tokens : List TokenRow
  pub logged_users : List RowId
  pub logged_tokens : List RowId

-- The constraints of the schema.
pub data Violation : Type 0 where
  not_unique : String → Violation
  foreign_key : Violation

module _ {R : Type 0} where
  -- `INTEGER PRIMARY KEY`: one more than the largest id.
  abbrev pub next_after : ℕ → (R → ℕ) → List R → ℕ
  next_after n id [] = suc n
  next_after n id (r ∷ rs) = next_after (if leb n (id r) then id r else n) id rs

  abbrev pub next_id : (R → ℕ) → List R → ℕ
  next_id id rs = next_after 0 id rs

  abbrev pub has_id : (R → ℕ) → ℕ → List R → Bool
  has_id id k rs = any (λ r. id r == k) rs

  -- A row, other than the one that is written, has the text.
  abbrev pub taken : (R → String) → String → List R → Bool
  taken key s rs = any (λ r. str_eq (key r) s) rs

  abbrev pub taken_elsewhere : (R → ℕ) → (R → String) → ℕ → String → List R → Bool
  taken_elsewhere id key k s rs = any (λ r. not (id r == k) && str_eq (key r) s) rs

abbrev pub listed : RowId → List RowId → Bool
listed k ks = any (λ j. j == k) ks

abbrev pub unless : Bool → Violation → Option Violation
unless b v = if b then some v else none

-- `refusal` is the error of SQLite that is no violation, as of a disk; `explain` prints the others.
module _ {S : Type 0} (refusal : Option String) (explain : Violation → String) where
  -- A statement, with the violation that it would be, its result and the tables after it.
  unfoldable pub statement : {A : Type 0} → Option Violation → A → (S → S) → Action S A
  statement v a f db = elim refusal [
    | some e ↦ (err (storage e), db)
    | none ↦ elim v [ some w ↦ (err (storage (explain w)), db) | none ↦ (ok a, f db) ]
  ]

  abbrev pub reads : {A : Type 0} → A → Action S A
  reads a db = statement none a (λ d. d) db
