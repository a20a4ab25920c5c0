-- ===== src/Tests/Billing.antt =====
-- The billing manager over the storage adapter, as in crates/core/src/billing.rs's own tests.
use chenni_x_api.Prelude.Int.{pos, negsuc, ◌+ℤ◌, ◌-ℤ◌, wrap_i64}
use chenni_x_api.Prelude.{ℕ, ◌≡◌, refl, String, true, false, Option, none, some, [], ◌∷◌, arith}
use chenni_x_api.Common.Types.{UserConfig, TokenConfig}
use chenni_x_api.Common.Errors.{storage, config, insufficient_token_quota}
use chenni_x_api.Common.Results.{ok, err}
use chenni_x_api.Billing.Contract.{Atomic}
use chenni_x_api.Billing.{BillingSession, pre_charge, settle, refund}
use chenni_x_api.Billing.Effects.{Settled, refund_undoes_pre_charge, settle_effect, settle_trues_up}
use chenni_x_api.Storage.Table.{update_where, select, adjust_at}
use chenni_x_api.Storage.Ledger.{
  Db, Statement, adapter, commit, pre_charge_atomic, settle_atomic, refund_atomic,
}
use chenni_x_api.Storage.Ledger.Balances.{
  adapter_contract, transactions-Atomic, HasFunds, DbIsValid, spend, mark,
}

abbrev pub alice : UserConfig
alice = record {
  id = 1;
  username = "alice";
  role = pos 1;
  status = pos 1;
  quota = pos 1000;
  used_quota = pos 0;
  group = "default";
}

abbrev pub token : TokenConfig
token = record {
  id = 10;
  user_id = 1;
  key = "sk-abc";
  name = none;
  remain_quota = pos 500;
  used_quota = pos 0;
  unlimited_quota = false;
  expired_time = negsuc 0;
  model_limits_enabled = false;
  model_limits = none;
  status = pos 1;
  allow_ips = none;
}

abbrev pub db : Db
db = record { users = alice ∷ []; tokens = token ∷ [] }

pub db-IsValid : DbIsValid db
db-IsValid = ((tt, tt), (tt, tt))

-- The store after `spent` and with `status` on the token.
abbrev pub db_with : ℕ → ℕ → ℕ → Db
db_with spent left status = record {
  users = record alice { used_quota = pos spent } ∷ [];
  tokens =
      record token { remain_quota = pos left; used_quota = pos spent; status = pos status } ∷ [];
}

-- No statement is refused.
abbrev pub healthy : Statement → Option String
healthy _ = none

abbrev pub session_of : ℕ → BillingSession
session_of amount = record {
  user_id = 1;
  token_id = 10;
  pre_charged = pos amount;
  settled = false;
  token_unlimited = false;
}

pub run_pre_charge :
    pre_charge (adapter healthy) 1 10 (pos 100) db ≡ (ok (session_of 100), db_with 100 400 1)
unfolding pre_charge adapter update_where select ◌+ℤ◌ ◌-ℤ◌
run_pre_charge = refl

run_pre_charge_token :
    pre_charge (adapter healthy) 1 10 (pos 800) db
    ≡ (err (config (insufficient_token_quota 10 (pos 800))), db)
unfolding pre_charge adapter update_where select ◌+ℤ◌ ◌-ℤ◌
run_pre_charge_token = refl

run_refund : refund (adapter healthy) (session_of 100) (db_with 100 400 1) ≡ (ok tt, db)
unfolding refund adapter update_where select ◌+ℤ◌ ◌-ℤ◌
run_refund = refl

run_settle :
    settle (adapter healthy) (session_of 100) (pos 500) (db_with 100 400 1)
    ≡ ((ok tt, record (session_of 100) { settled = true }), db_with 500 0 3)
unfolding settle adapter update_where select ◌+ℤ◌ ◌-ℤ◌ wrap_i64
run_settle = refl

refund_undoes_pre_charge_example : db ≡ db
unfolding adapter_contract
refund_undoes_pre_charge_example =
    refund_undoes_pre_charge (adapter healthy) (adapter_contract healthy) 1 10 (pos 100) db
      (db_with 100 400 1) db (session_of 100) db-IsValid run_pre_charge run_refund

settle_effect_example :
    Settled
      (adapter healthy)
      (adapter_contract healthy)
      (session_of 100)
      (pos 500)
      (db_with 100 400 1)
      (settle (adapter healthy) (session_of 100) (pos 500) (db_with 100 400 1))
settle_effect_example =
    settle_effect (adapter healthy) (adapter_contract healthy) (session_of 100) (pos 500)
      (db_with 100 400 1)

settle_trues_up_example : db_with 500 0 3 ≡ mark 10 (pos 3) (spend 1 10 (pos 500) false db)
unfolding adapter_contract select adjust_at ◌+ℤ◌ ◌-ℤ◌
settle_trues_up_example =
    settle_trues_up (adapter healthy) (adapter_contract healthy) 1 10 (pos 100) (pos 500) db
      (db_with 100 400 1) (db_with 500 0 3) (session_of 100)
      (record (session_of 100) { settled = true }) db-IsValid (omega arith) (omega arith)
      run_pre_charge run_settle

-- A commit that SQLite refuses leaves the store as it was.
abbrev refuses_commit : Statement → Option String
refuses_commit commit = some "disk I/O error"
refuses_commit _ = none

run_refused_commit :
    pre_charge (adapter refuses_commit) 1 10 (pos 100) db ≡ (err (storage "disk I/O error"), db)
unfolding pre_charge adapter update_where select ◌+ℤ◌ ◌-ℤ◌
run_refused_commit = refl

transactions-Atomic_example :
    Atomic db
      (spend 1 10 (pos 100) false db)
      (HasFunds 1 10 (pos 100) false db)
      (pre_charge_atomic refuses_commit 1 10 (pos 100) false db)
    × Atomic db
        (spend 1 10 (pos 100) false db)
        (Unit {0})
        (settle_atomic refuses_commit 1 10 (pos 100) false db)
    × Atomic db
        (spend 1 10 (pos 0 -ℤ pos 100) false db)
        (Unit {0})
        (refund_atomic refuses_commit 1 10 (pos 100) false db)
transactions-Atomic_example = transactions-Atomic refuses_commit 1 10 (pos 100) false db db-IsValid
