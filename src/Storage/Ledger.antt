-- ===== src/Storage/Ledger.antt =====
-- crates/server/src/pipeline.rs, `impl BillingRepo for StorageAdapter`, with the statements of
-- crates/storage/src/{users,tokens}.rs that it runs: one SQLite transaction each. The columns that
-- the gateway never reads back (`updated_at`, the password hash) are left out.
pub mod Balances
use chenni_x_api.Prelude.Tests.{◌==◌, if◌then◌else◌}
use chenni_x_api.Prelude.Int.{ℤ, ◌+ℤ◌, ◌-ℤ◌, leb_ℤ}
use chenni_x_api.Prelude.{ℕ, String, Bool, true, false, ◌&&◌, Option, none, some, List}
use mathlib.Core.Option
use chenni_x_api.Common.Types.{RowId, UserConfig, TokenConfig}
use chenni_x_api.Common.Errors.{
  ProxyError, storage, config, insufficient_user_quota, insufficient_token_quota,
}
use chenni_x_api.Common.Results.{ProxyResult, ok, err, Action, pure, raise, ◌>>=◌, ◌>>◌}
use chenni_x_api.Storage.Table.{update_where, select, adjust_at}
use chenni_x_api.Billing.{BillingRepo}

pub record Db : Type 0 where
  pub users : List UserConfig
  pub tokens : List TokenConfig

-- The statements of the adapter, as the places where SQLite may fail.
pub data Statement : Type 0 where
  select_user select_token select_remain update_status begin update_users update_tokens commit :
      Statement

abbrev spend_user : ℤ → UserConfig → UserConfig
spend_user a u = record u { used_quota = u.used_quota +ℤ a }

abbrev spend_token : ℤ → TokenConfig → TokenConfig
spend_token a t = record t { remain_quota = t.remain_quota -ℤ a; used_quota = t.used_quota +ℤ a }

abbrev give_back_user : ℤ → UserConfig → UserConfig
give_back_user a u = record u { used_quota = u.used_quota -ℤ a }

abbrev give_back_token : ℤ → TokenConfig → TokenConfig
give_back_token a t = record t {
  remain_quota = t.remain_quota +ℤ a;
  used_quota = t.used_quota -ℤ a;
}

-- What SQLite answers to a statement: `none`, or the text of its error.
module _ (refusal : Statement → Option String) where
  -- `.map_err(|e| ProxyError::Storage(e.to_string()))?`
  run : Statement → Action Db (Unit {0})
  run st db = elim (refusal st) [ none ↦ (ok tt, db) | some e ↦ (err (storage e), db) ]

  -- A transaction that is dropped without `commit` is rolled back.
  transaction : Action Db (Unit {0}) → Action Db (Unit {0})
  unfolding run
  transaction body db =
      let (r, db') = (run begin >> body >> run commit) db in
      elim r [ ok _ ↦ (ok tt, db') | err e ↦ (err e, db) ]

  exec_users : (UserConfig → Bool) → (UserConfig → UserConfig) → Action Db ℕ
  unfolding run
  exec_users p f = run update_users >> λ db.
      let (rows, n) = update_where p f db.users in (ok n, record db { users = rows })

  exec_tokens : (TokenConfig → Bool) → (TokenConfig → TokenConfig) → Action Db ℕ
  unfolding run
  exec_tokens p f = run update_tokens >> λ db.
      let (rows, n) = update_where p f db.tokens in (ok n, record db { tokens = rows })

  unfoldable pub get_user_quota : RowId → Action Db (Option ℤ)
  unfolding run
  get_user_quota user_id = run select_user >> λ db.
      (ok (Option.map (λ u. u.quota -ℤ u.used_quota) (select (λ u. u.id) user_id db.users)), db)

  unfoldable pub get_token_remain_quota : RowId → Action Db (Option ℤ)
  unfolding run
  get_token_remain_quota token_id = run select_remain >> λ db.
      (ok (Option.map (λ t. t.remain_quota) (select (λ t. t.id) token_id db.tokens)), db)

  unfoldable pub get_token_unlimited : RowId → Action Db (Option Bool)
  unfolding run
  get_token_unlimited token_id = run select_token >> λ db.
      (ok (Option.map (λ t. t.unlimited_quota) (select (λ t. t.id) token_id db.tokens)), db)

  unfoldable pub update_token_status : RowId → ℤ → Action Db (Unit {0})
  unfolding run
  update_token_status token_id status = run update_status >> λ db. (
    ok tt,
    record db {
      tokens =
          (update_where (λ t. t.id == token_id) (λ t. record t { status = status }) db.tokens).0;
    },
  )

  unfoldable pub pre_charge_atomic : RowId → RowId → ℤ → Bool → Action Db (Unit {0})
  unfolding transaction exec_users exec_tokens
  pre_charge_atomic user_id token_id amount token_unlimited = transaction (do
    user_changes ←
        exec_users (λ u. u.id == user_id && leb_ℤ amount (u.quota -ℤ u.used_quota))
          (spend_user amount)
    if user_changes == 0
        then raise (config (insufficient_user_quota user_id amount))
        else if token_unlimited
        then pure tt
        else (do
          token_changes ←
              exec_tokens (λ t. t.id == token_id && leb_ℤ amount t.remain_quota)
                (spend_token amount)
          if token_changes == 0
              then raise (config (insufficient_token_quota token_id amount))
              else pure tt))

  unfoldable pub settle_atomic : RowId → RowId → ℤ → Bool → Action Db (Unit {0})
  unfolding transaction exec_users exec_tokens
  settle_atomic user_id token_id delta token_unlimited = transaction (do
    exec_users (λ u. u.id == user_id) (spend_user delta)
    if token_unlimited
        then pure tt
        else (do exec_tokens (λ t. t.id == token_id) (spend_token delta); pure tt))

  unfoldable pub refund_atomic : RowId → RowId → ℤ → Bool → Action Db (Unit {0})
  unfolding transaction exec_users exec_tokens
  refund_atomic user_id token_id amount token_unlimited = transaction (do
    exec_users (λ u. u.id == user_id) (give_back_user amount)
    if token_unlimited
        then pure tt
        else (do exec_tokens (λ t. t.id == token_id) (give_back_token amount); pure tt))

  -- `impl BillingRepoTrait for StorageAdapter`
  unfoldable pub adapter : BillingRepo Db
  unfolding get_user_quota get_token_remain_quota get_token_unlimited update_token_status
      pre_charge_atomic settle_atomic refund_atomic
  adapter = record {
    get_user_quota = get_user_quota;
    get_token_remain_quota = get_token_remain_quota;
    update_token_status = update_token_status;
    get_token_unlimited = get_token_unlimited;
    pre_charge_atomic = pre_charge_atomic;
    settle_atomic = settle_atomic;
    refund_atomic = refund_atomic;
  }
