-- ===== src/Catalog/Keys.antt =====
-- crates/storage/src/keys.rs: the methods of `KeyRepo` that write, and those that count.
use mathlib.Core.Option
use chenni_x_api.Prelude.Int.{ℤ, pos, ltb_ℤ, eqb_ℤ, ◌+ℤ◌, wrap_i32, wrap_i64}
use chenni_x_api.Prelude.Lists.{any, keep_if, length}
use chenni_x_api.Prelude.Tests.{◌==◌, if◌then◌else◌}
use chenni_x_api.Prelude.{
  ℕ, suc, ◌+◌, ◌*◌, String, str_eq, Bool, false, not, ◌&&◌, Option, none, some, List, [], ◌∷◌, ◌++◌,
  ◌<>◌, map,
}
use chenni_x_api.Common.Text.{decimal}
use chenni_x_api.Common.Types.{
  RowId, F64, is_positive, CostTier, free, paid, KeyStatus, active, cooldown, disabled,
  quota_exhausted, KeyConfig,
}
use chenni_x_api.Common.Errors.{storage}
use chenni_x_api.Common.Results.{err, Action}
use chenni_x_api.Storage.Table.{select, adjust_at, update_where}
use chenni_x_api.Accounts.{
  Violation, foreign_key, next_id, has_id, listed, unless, statement, reads,
}
use chenni_x_api.Catalog.{ChannelRow, KeyRow, Catalog, map_key_row}

abbrev pub key_status_text : KeyStatus → String
key_status_text active = "active"
key_status_text cooldown = "cooldown"
key_status_text disabled = "disabled"
key_status_text quota_exhausted = "quota_exhausted"

abbrev pub cost_text : CostTier → String
cost_text free = "free"
cost_text paid = "paid"

abbrev pub set_key : RowId → (KeyRow → KeyRow) → Catalog → Catalog
set_key k f t = record t { keys = adjust_at (λ (r : KeyRow). r.id) k f t.keys }

abbrev pub in_channel : RowId → KeyRow → Bool
in_channel channel_id r = r.channel_id == channel_id

-- `COALESCE(MAX(key_priority), 0)`.
abbrev pub max_from : ℤ → List KeyRow → ℤ
max_from a [] = a
max_from a (r ∷ rs) = max_from (if ltb_ℤ a r.key_priority then r.key_priority else a) rs

abbrev pub max_priority : List KeyRow → ℤ
max_priority [] = pos 0
max_priority (r ∷ rs) = max_from r.key_priority rs

abbrev pub status_of_code : ℤ → String
status_of_code s =
    if eqb_ℤ s (pos 1)
    then "active"
    else if eqb_ℤ s (pos 2)
    then "disabled"
    else if eqb_ℤ s (pos 3)
    then "cooldown"
    else if eqb_ℤ s (pos 4)
    then "quota_exhausted"
    else "active"

abbrev pub limit_or_null : ℤ → Option ℤ
limit_or_null limit = if ltb_ℤ (pos 0) limit then some limit else none

unfoldable pub price_or_null : F64 → Option F64
unfolding is_positive
price_or_null price = if is_positive price then some price else none

abbrev pub has_period : String → KeyRow → Bool
has_period period r = elim r.quota_reset_period [ none ↦ false | some p ↦ str_eq p period ]

abbrev pub first_duplicate : List RowId → List RowId → Option RowId
first_duplicate seen [] = none
first_duplicate seen (k ∷ ks) =
    if any (λ j. j == k) seen then some k else first_duplicate (k ∷ seen) ks

abbrev pub first_stranger : List RowId → List RowId → Option RowId
first_stranger existing [] = none
first_stranger existing (k ∷ ks) =
    if any (λ j. j == k) existing then first_stranger existing ks else some k

-- The `i`-th key of the list gets the priority `(i + 1) * 10`; no channel has as many keys as would
-- overflow it.
unfoldable pub number_keys : ℕ → List RowId → Catalog → Catalog
unfolding adjust_at
number_keys i [] t = t
number_keys i (k ∷ ks) t =
    number_keys (suc i) ks (set_key k (λ r. record r { key_priority = pos ((i + 1) * 10) }) t)

unfoldable pub full_key : RowId → String → Option String → Bool → ℤ → ℤ → F64 → RowId → KeyRow
unfolding price_or_null
full_key channel_id api_key label is_free priority quota_limit price_per_1k_tokens id = record {
  id = id;
  channel_id = channel_id;
  api_key = api_key;
  label = label;
  cost_tier = if is_free then "free" else "paid";
  key_priority = priority;
  price_per_1k_tokens = price_or_null price_per_1k_tokens;
  free_quota = limit_or_null quota_limit;
  used_quota = pos 0;
  quota_reset_period = none;
  status = "active";
}

module _ (refusal : Option String) (explain : Violation → String) where
  -- The row with the next id, where the channel exists.
  unfoldable pub insert_key : (RowId → KeyRow) → Action Catalog RowId
  unfolding statement
  insert_key row t =
      let id = next_id (λ (r : KeyRow). r.id) t.keys in
      statement refusal explain
        (unless (not (has_id (λ (c : ChannelRow). c.id) (row id).channel_id t.channels))
          foreign_key)
        id (λ s. record s { keys = s.keys ++ row id ∷ [] }) t

  unfoldable pub create_key :
      RowId
      → String
      → Option String
      → CostTier
      → ℤ
      → Option F64
      → Option ℕ
      → Option String
      → Action Catalog RowId
  unfolding insert_key wrap_i64
  create_key channel_id api_key label cost_tier key_priority price_per_1k_tokens free_quota
        quota_reset_period =
      insert_key (λ id. record {
        id = id;
        channel_id = channel_id;
        api_key = api_key;
        label = label;
        cost_tier = cost_text cost_tier;
        key_priority = key_priority;
        price_per_1k_tokens = price_per_1k_tokens;
        free_quota = Option.map (λ q. wrap_i64 (pos q)) free_quota;
        used_quota = pos 0;
        quota_reset_period = quota_reset_period;
        status = "active";
      })

  unfoldable pub create_key_full :
      RowId → String → Option String → Bool → ℤ → ℤ → F64 → Action Catalog RowId
  unfolding insert_key full_key
  create_key_full channel_id api_key label is_free priority quota_limit price_per_1k_tokens =
      insert_key
        (full_key channel_id api_key label is_free priority quota_limit price_per_1k_tokens)

  -- The query for the largest priority comes first, and may be refused by itself.
  unfoldable pub create_key_auto_priority :
      RowId → String → Option String → Bool → ℤ → F64 → Action Catalog RowId
  unfolding create_key_full wrap_i32 ◌+ℤ◌
  create_key_auto_priority channel_id api_key label is_free quota_limit price_per_1k_tokens t =
      create_key_full channel_id api_key label is_free
        (wrap_i32 (max_priority (keep_if (in_channel channel_id) t.keys) +ℤ pos 10)) quota_limit
        price_per_1k_tokens t

  unfoldable pub update_key : RowId → String → Bool → ℤ → ℤ → F64 → ℤ → Action Catalog Unit
  unfolding statement adjust_at price_or_null
  update_key id api_key is_free priority quota_limit price_per_1k_tokens status =
      statement refusal explain none tt (
        set_key id (λ r. record r {
          api_key = api_key;
          cost_tier = if is_free then "free" else "paid";
          key_priority = priority;
          price_per_1k_tokens = price_or_null price_per_1k_tokens;
          free_quota = limit_or_null quota_limit;
          status = status_of_code status;
        }))

  unfoldable pub update_key_status : RowId → KeyStatus → Action Catalog Unit
  unfolding statement adjust_at
  update_key_status id status =
      statement refusal explain none tt
        (set_key id (λ r. record r { status = key_status_text status }))

  -- `logged` has the keys to which `usage_logs` refers.
  unfoldable pub delete_key : List RowId → RowId → Action Catalog Unit
  unfolding statement
  delete_key logged id t =
      statement refusal explain
        (unless (has_id (λ (r : KeyRow). r.id) id t.keys && listed id logged) foreign_key) tt
        (λ s. record s { keys = keep_if (λ (r : KeyRow). not (r.id == id)) s.keys }) t

  unfoldable pub count_duplicate_api_key_in_channel :
      RowId → String → Option RowId → Action Catalog ℕ
  unfolding statement
  count_duplicate_api_key_in_channel channel_id api_key exclude_key_id t =
      let same = λ (r : KeyRow). in_channel channel_id r && str_eq r.api_key api_key in
      reads refusal explain
        (elim exclude_key_id [
          | some exclude_id ↦
              length (keep_if (λ (r : KeyRow). same r && not (r.id == exclude_id)) t.keys)
          | none ↦ length (keep_if same t.keys)
        ])
        t

  unfoldable pub get_disabled_key_ids : Action Catalog (List RowId)
  unfolding statement
  get_disabled_key_ids t =
      reads refusal explain
        (map (λ (r : KeyRow). r.id) (keep_if (λ (r : KeyRow). str_eq r.status "disabled") t.keys)) t

  unfoldable pub get_key_by_id : RowId → Action Catalog (Option KeyConfig)
  unfolding statement select map_key_row
  get_key_by_id id t =
      reads refusal explain (Option.map map_key_row (select (λ (r : KeyRow). r.id) id t.keys)) t

  unfoldable pub add_key_usage : RowId → ℕ → Action Catalog Unit
  unfolding statement adjust_at wrap_i64 ◌+ℤ◌
  add_key_usage id tokens =
      statement refusal explain none tt
        (set_key id (λ r. record r { used_quota = r.used_quota +ℤ wrap_i64 (pos tokens) }))

  -- The keys with the reset period, and how many they are.
  unfoldable pub reset_period : String → Action Catalog ℕ
  unfolding statement update_where
  reset_period period t =
      let (keys, n) =
        update_where (λ (r : KeyRow). has_period period r) (λ r. record r { used_quota = pos 0 })
          t.keys in
      statement refusal explain none n (λ s. record s { keys = keys }) t

  unfoldable pub reset_daily_quota : Action Catalog ℕ
  unfolding reset_period
  reset_daily_quota = reset_period "daily"

  unfoldable pub reset_monthly_quota : Action Catalog ℕ
  unfolding reset_period
  reset_monthly_quota = reset_period "monthly"

  unfoldable pub reset_key_quota : RowId → RowId → Action Catalog Unit
  unfolding statement update_where
  reset_key_quota key_id channel_id = statement refusal explain none tt (λ t. record t {
    keys =
        (update_where (λ (r : KeyRow). r.id == key_id && r.channel_id == channel_id)
          (λ r. record r { used_quota = pos 0 }) t.keys).0;
  })

  unfoldable pub number_if_valid : List RowId → RowId → List RowId → Action Catalog Unit
  unfolding statement number_keys
  number_if_valid existing channel_id ordered t =
      if not (length ordered == length existing)
      then (
        err (
            storage (
              "reorder_keys: count mismatch (got "
              <> decimal (length ordered)
              <> ", expected "
              <> decimal (length existing)
              <> ")")),
        t,
      )
      else elim (first_duplicate [] ordered) [
        | some k ↦ (err (storage ("reorder_keys: duplicate key id " <> decimal k)), t)
        | none ↦ elim (first_stranger existing ordered) [
          | some k ↦ (
            err (
                storage (
                  "reorder_keys: key id "
                  <> decimal k
                  <> " does not belong to channel "
                  <> decimal channel_id)),
            t,
          )
          | none ↦ statement refusal explain none tt (number_keys 0 ordered) t
        ]
      ]

  -- The transaction commits whole or not at all.
  unfoldable pub reorder_keys : RowId → List RowId → Action Catalog Unit
  unfolding number_if_valid
  reorder_keys channel_id ordered_key_ids t = elim refusal [
    | some e ↦ (err (storage e), t)
    | none ↦
        number_if_valid (map (λ (r : KeyRow). r.id) (keep_if (in_channel channel_id) t.keys))
          channel_id ordered_key_ids t
  ]
