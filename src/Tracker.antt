-- ===== src/Tracker.antt =====
-- crates/core/src/tracker.rs: the usage log, and the counters of the keys and of the small models.
pub mod Quota
use chenni_x_api.Prelude.Int.{ℤ, pos, eqb_ℤ, leb_ℤ, wrap_i64, saturating_add}
use chenni_x_api.Prelude.Tests.{if◌then◌else◌}
use chenni_x_api.Prelude.{ℕ, String, Option, none, some}
use chenni_x_api.Common.Types.{RowId, Usage}
use chenni_x_api.Common.Results.{Action}
use chenni_x_api.Cache.{
  QuotaUnit, token, call, QuotaState, QuotaStatus, available, exhausted, quota_status_as_db_str,
}
use chenni_x_api.Cache.Store.{ConfigCache, get_small_model_quota, update_small_model_quota}
use chenni_x_api.Health.{HealthManager, add_usage}

-- A row of `usage_logs`.
pub record UsageLog : Type 0 where
  pub user_id : RowId
  pub token_id : RowId
  pub channel_id : RowId
  pub key_id : RowId
  pub model_id : RowId
  pub usage : Usage
  pub quota_cost : ℤ
  pub request_type : String
  pub status : String
  pub error : Option String

-- `trait UsageWriter`, on a store `W`, less the request log of the HTTP handlers.
pub record UsageWriter (W : Type 0) : Type 0 where
  pub log_usage : UsageLog → Action W (Unit {0})
  pub add_key_usage : RowId → ℕ → Action W (Unit {0})
  pub add_small_model_usage : RowId → String → ℤ → String → Action W (Unit {0})

-- How much a request adds to a quota; nothing if the request is not counted.
unfoldable pub delta_of : QuotaState → Usage → Option ℤ
delta_of state usage = elim state.limit [
  | none ↦ none
  | some _ ↦ elim state.unit [
    | none ↦ none
    | some call ↦ some (pos 1)
    | some token ↦
        let tokens = wrap_i64 (pos usage.total_tokens) in
        if eqb_ℤ tokens (pos 0) then none else some tokens
  ]
]

-- The status for what is used now.
unfoldable pub status_for : ℤ → Option ℤ → QuotaStatus
status_for new_used none = available
status_for new_used (some limit) = if leb_ℤ limit new_used then exhausted else available

module _ {W : Type 0} (writer : UsageWriter W) where
  -- The result of the write is ignored.
  unfoldable pub accumulate_small_model_quota :
      RowId → String → Usage → ConfigCache × W → ConfigCache × W
  unfolding delta_of status_for get_small_model_quota update_small_model_quota
      quota_status_as_db_str
  accumulate_small_model_quota channel_id upstream usage (cache, w) =
      elim (get_small_model_quota channel_id upstream cache) [
        | none ↦ (cache, w)
        | some state ↦ elim (delta_of state usage) [
          | none ↦ (cache, w)
          | some delta ↦
              let new_used = saturating_add state.used delta in
              let status = status_for new_used state.limit in
              (
                update_small_model_quota channel_id upstream new_used status cache,
                (writer.add_small_model_usage channel_id upstream delta
                    (quota_status_as_db_str status) w).1,
              )
        ]
      ]

  -- It answers `Ok(())` whatever the writes answer.
  unfoldable pub track_success :
      UsageLog → String → HealthManager × (ConfigCache × W) → HealthManager × (ConfigCache × W)
  unfolding accumulate_small_model_quota add_usage
  track_success row upstream (h, (cache, w)) =
      let logged = (writer.log_usage (record row { status = "success"; error = none }) w).1 in
      let counted = (writer.add_key_usage row.key_id row.usage.total_tokens logged).1 in
      (
        add_usage row.key_id row.usage.total_tokens h,
        accumulate_small_model_quota row.channel_id upstream row.usage (cache, counted),
      )

  unfoldable pub track_failure :
      RowId → RowId → RowId → RowId → RowId → String → String → Action W (Unit {0})
  track_failure user_id token_id channel_id key_id model_id request_type error =
      writer.log_usage record {
        user_id = user_id;
        token_id = token_id;
        channel_id = channel_id;
        key_id = key_id;
        model_id = model_id;
        usage = record { prompt_tokens = 0; completion_tokens = 0; total_tokens = 0 };
        quota_cost = pos 0;
        request_type = request_type;
        status = "failed";
        error = some error;
      }
