-- ===== src/Storage/Ledger/Balances.antt =====
-- crates/server/src/pipeline.rs: the adapter's transactions meet the contract of the billing
-- manager, whatever statements SQLite refuses.
use mathlib.Core.Option
use mathlib.Core.Path.{fun_ext, ap₂}
use chenni_x_api.Prelude.Tests.{if◌then◌else◌}
use chenni_x_api.Prelude.Int.{
  ℤ, pos, ◌+ℤ◌, ◌-ℤ◌, leb_ℤ, +ℤ_assoc, -ℤ_assoc, +ℤ_zero, -ℤ_zero, sub-eq-add_neg, add-eq-sub_neg,
}
use chenni_x_api.Prelude.{
  ℕ, ◌≡◌, refl, ap, ◌⊎◌, String, Bool, true, false, Option, none, some, arith,
}
use chenni_x_api.Common.Types.{RowId, UserConfig, TokenConfig}
use chenni_x_api.Common.Results.{ok}
use chenni_x_api.Billing.Contract.{Contract, Atomic, Reads}
use chenni_x_api.Storage.Table.{select, Keyed, adjust_at}
use chenni_x_api.Storage.Updates.{
  update_where-adjust_at, update_where-Hit, adjust_at-adjust_at, adjust_at-Keyed, adjust_at-eq_self,
}
use chenni_x_api.Storage.Ledger.{
  Db, Statement, begin, update_users, update_tokens, commit, adapter, pre_charge_atomic,
  settle_atomic, refund_atomic, get_token_remain_quota, get_token_unlimited, update_token_status,
  spend_user, spend_token, give_back_user, give_back_token, transaction, exec_users, exec_tokens,
  run,
}

abbrev pub user_id : UserConfig → ℕ
user_id u = u.id

abbrev pub token_id : TokenConfig → ℕ
token_id t = t.id

-- Both tables have a primary key.
abbrev pub DbIsValid : Db → Type 0
DbIsValid db = Keyed user_id db.users × Keyed token_id db.tokens

-- The store in which the user and, unless it is unlimited, the token have spent `a` more.
abbrev pub spend : RowId → RowId → ℤ → Bool → Db → Db
spend u t a b db = record {
  users = adjust_at user_id u (spend_user a) db.users;
  tokens = if b then db.tokens else adjust_at token_id t (spend_token a) db.tokens;
}

-- The balances that allow a pre-charge.
abbrev pub HasFunds : RowId → RowId → ℤ → Bool → Db → Type 0
HasFunds u t a b db =
    ((r : UserConfig) × (select user_id u db.users ≡ some r)
      × (leb_ℤ a (r.quota -ℤ r.used_quota) ≡ true))
    × ((b ≡ true)
        ⊎ ((k : TokenConfig) × (select token_id t db.tokens ≡ some k)
            × (leb_ℤ a k.remain_quota ≡ true)))

abbrev with_status : ℤ → TokenConfig → TokenConfig
with_status v t = record t { status = v }

abbrev pub mark : RowId → ℤ → Db → Db
mark t v db = record db { tokens = adjust_at token_id t (with_status v) db.tokens }

abbrev pub remain_of : RowId → Db → Option ℤ
remain_of t db = Option.map (λ k. k.remain_quota) (select token_id t db.tokens)

abbrev pub unlimited_of : RowId → Db → Option Bool
unlimited_of t db = Option.map (λ k. k.unlimited_quota) (select token_id t db.tokens)

spend_user-spend_user :
    (a c : ℤ) (r : UserConfig) → spend_user a (spend_user c r) ≡ spend_user (c +ℤ a) r
spend_user-spend_user a c r = ap (λ n. record r { used_quota = n }) (+ℤ_assoc r.used_quota c a)

spend_token-spend_token :
    (a c : ℤ) (k : TokenConfig) → spend_token a (spend_token c k) ≡ spend_token (c +ℤ a) k
spend_token-spend_token a c k =
    ap₂ (λ m n. record k { remain_quota = m; used_quota = n }) (-ℤ_assoc k.remain_quota c a)
      (+ℤ_assoc k.used_quota c a)

give_back_user-eq : (a : ℤ) (r : UserConfig) → give_back_user a r ≡ spend_user (pos 0 -ℤ a) r
give_back_user-eq a r = ap (λ n. record r { used_quota = n }) (sub-eq-add_neg r.used_quota a)

give_back_token-eq : (a : ℤ) (k : TokenConfig) → give_back_token a k ≡ spend_token (pos 0 -ℤ a) k
give_back_token-eq a k =
    ap₂ (λ m n. record k { remain_quota = m; used_quota = n }) (add-eq-sub_neg k.remain_quota a)
      (sub-eq-add_neg k.used_quota a)

pub spend-zero : (u t : RowId) (b : Bool) (db : Db) → spend u t (pos 0) b db ≡ db
spend-zero u t b db = ground (
  arith,
  adjust_at-eq_self user_id u (spend_user (pos 0)) db.users
      (λ r. ap (λ n. record r { used_quota = n }) (+ℤ_zero r.used_quota)),
  adjust_at-eq_self token_id t (spend_token (pos 0)) db.tokens (λ k.
      ap₂ (λ m n. record k { remain_quota = m; used_quota = n }) (-ℤ_zero k.remain_quota)
        (+ℤ_zero k.used_quota)),
)

pub spend-spend :
    (u t : RowId) (a c : ℤ) (b : Bool) (db : Db)
    → spend u t a b (spend u t c b db) ≡ spend u t (c +ℤ a) b db
spend-spend u t a c b db = ground (
  arith,
  adjust_at-adjust_at user_id (spend_user a) (λ r. refl) u (spend_user c) db.users (λ r. refl),
  ap (λ f. adjust_at user_id u f db.users) (fun_ext (spend_user-spend_user a c)),
  adjust_at-adjust_at token_id (spend_token a) (λ k. refl) t (spend_token c) db.tokens (λ k. refl),
  ap (λ f. adjust_at token_id t f db.tokens) (fun_ext (spend_token-spend_token a c)),
)

pub spend-IsValid :
    (u t : RowId) (a : ℤ) (b : Bool) (db : Db) → DbIsValid db → DbIsValid (spend u t a b db)
spend-IsValid u t a true db v =
    (adjust_at-Keyed user_id (spend_user a) (λ r. refl) u db.users v.0, v.1)
spend-IsValid u t a false db v = (
  adjust_at-Keyed user_id (spend_user a) (λ r. refl) u db.users v.0,
  adjust_at-Keyed token_id (spend_token a) (λ k. refl) t db.tokens v.1,
)

module _ (refusal : Statement → Option String) where
  pub pre_charge-Atomic :
      (u t : RowId) (a : ℤ) (b : Bool) (db : Db)
      → DbIsValid db
      → Atomic db (spend u t a b db) (HasFunds u t a b db) (pre_charge_atomic refusal u t a b db)
  unfolding pre_charge_atomic transaction exec_users exec_tokens run
  pre_charge-Atomic u t a true db v = ground (
    arith,
    update_where-Hit user_id u (λ r. leb_ℤ a (r.quota -ℤ r.used_quota)) (spend_user a) db.users v.0,
  )
  pre_charge-Atomic u t a false db v = ground (
    arith,
    update_where-Hit user_id u (λ r. leb_ℤ a (r.quota -ℤ r.used_quota)) (spend_user a) db.users v.0,
    update_where-Hit token_id t (λ k. leb_ℤ a k.remain_quota) (spend_token a) db.tokens v.1,
  )

  pub settle-Atomic :
      (u t : RowId) (a : ℤ) (b : Bool) (db : Db)
      → Atomic db (spend u t a b db) (Unit {0}) (settle_atomic refusal u t a b db)
  unfolding settle_atomic transaction exec_users exec_tokens run
  settle-Atomic u t a b db = ground (
    arith,
    update_where-adjust_at user_id u (spend_user a) db.users,
    update_where-adjust_at token_id t (spend_token a) db.tokens,
  )

  pub refund-Atomic :
      (u t : RowId) (a : ℤ) (b : Bool) (db : Db)
      → Atomic db (spend u t (pos 0 -ℤ a) b db) (Unit {0}) (refund_atomic refusal u t a b db)
  unfolding refund_atomic transaction exec_users exec_tokens run
  refund-Atomic u t a b db = ground (
    arith,
    update_where-adjust_at user_id u (give_back_user a) db.users,
    update_where-adjust_at token_id t (give_back_token a) db.tokens,
    ap (λ f. adjust_at user_id u f db.users) (fun_ext (give_back_user-eq a)),
    ap (λ f. adjust_at token_id t f db.tokens) (fun_ext (give_back_token-eq a)),
  )

  -- Where the database refuses no statement, a refund commits.
  pub refund-commits :
      ((x : Statement) → refusal x ≡ none)
      → (u t : RowId) (a : ℤ) (b : Bool) (db : Db) → (refund_atomic refusal u t a b db).0 ≡ ok tt
  unfolding refund_atomic transaction exec_users exec_tokens run
  refund-commits fine u t a b db =
      ground (arith, fine begin, fine update_users, fine update_tokens, fine commit)

  pub unlimited-Reads :
      (t : RowId) (db : Db) → Reads db (unlimited_of t db) (get_token_unlimited refusal t db)
  unfolding get_token_unlimited run
  unlimited-Reads t db = ground arith

  pub remain-Reads :
      (t : RowId) (db : Db) → Reads db (remain_of t db) (get_token_remain_quota refusal t db)
  unfolding get_token_remain_quota run
  remain-Reads t db = ground arith

  pub status-Atomic :
      (t : RowId) (v : ℤ) (db : Db)
      → Atomic db (mark t v db) (Unit {0}) (update_token_status refusal t v db)
  unfolding update_token_status run
  status-Atomic t v db = ground (arith, update_where-adjust_at token_id t (with_status v) db.tokens)

  -- In a store whose ids are unique, and for every pattern of refused statements, each of the three
  -- transactions is all or nothing: a pre-charge commits only where the user, and a token that is
  -- not unlimited, have the funds, and then moves the amount in both rows; a settlement moves its
  -- difference; a refund moves exactly the negated amount; and each leaves the store untouched when
  -- it fails.
  pub transactions-Atomic :
      (u t : RowId) (a : ℤ) (b : Bool) (db : Db)
      → DbIsValid db
      → Atomic db (spend u t a b db) (HasFunds u t a b db) (pre_charge_atomic refusal u t a b db)
        × Atomic db (spend u t a b db) (Unit {0}) (settle_atomic refusal u t a b db)
        × Atomic db (spend u t (pos 0 -ℤ a) b db) (Unit {0}) (refund_atomic refusal u t a b db)
  transactions-Atomic u t a b db v =
      (pre_charge-Atomic u t a b db v, settle-Atomic u t a b db, refund-Atomic u t a b db)

  -- So the adapter is a repository that the billing manager may rely on.
  unfoldable pub adapter_contract : Contract (adapter refusal)
  unfolding adapter
  adapter_contract = record {
    IsValid = DbIsValid;
    shift = spend;
    set_status = mark;
    remain = remain_of;
    unlimited = unlimited_of;
    Covers = HasFunds;
    shift-zero = spend-zero;
    shift-shift = spend-spend;
    shift-IsValid = spend-IsValid;
    unlimited_law = unlimited-Reads;
    remain_law = remain-Reads;
    status_law = status-Atomic;
    pre_charge_law = pre_charge-Atomic;
    settle_law = settle-Atomic;
    refund_law = refund-Atomic;
  }
