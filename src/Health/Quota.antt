-- ===== src/Health/Quota.antt =====
-- crates/core/src/health.rs: the quota windows of the small models. The calendar is chrono's, so
-- the date of an instant is a parameter.
pub mod Recovery
pub mod Resets
use chenni_x_api.Prelude.Tests.{◌==◌, if◌then◌else◌}
use chenni_x_api.Prelude.Int.{ℤ, pos}
use chenni_x_api.Prelude.Maps.{Map, get, insert, retain, map_values, nat_eq, string_eq, pair_eq}
use chenni_x_api.Prelude.{
  ℕ, String, Bool, true, false, not, ◌||◌, Option, none, some, List, [], ◌∷◌,
}
use chenni_x_api.Common.Types.{RowId}
use chenni_x_api.Cache.{
  quota_window_from_db_str, quota_status_from_db_str, QuotaWindow, day, month, total, QuotaStatus,
  available, quota_is_available,
}
use chenni_x_api.Cache.Store.{ConfigCache, update_small_model_quota}
use chenni_x_api.Health.{
  Instant, HealthManager, KeyRuntimeState, SmallModelState, small_model_reset, persist, is_cooling,
}

-- `date_naive()`, `year()` and `month()` of an instant.
pub record Calendar : Type 0 where
  pub date : Instant → ℕ
  pub year : Instant → ℕ
  pub month_of : Instant → ℕ

-- `contended` says whether a writer holds the lock.
unfoldable pub is_small_model_available : Bool → HealthManager → RowId → String → Bool
is_small_model_available contended h channel_id upstream =
    if contended then true else elim (get (channel_id, upstream) h.small_model_states) [
      | none ↦ true
      | some state ↦ elim state.limit [ none ↦ true | some _ ↦ quota_is_available state.status ]
    ]

-- A row of `discovered_models`, by the columns that the loader reads.
pub record DiscoveredModel : Type 0 where
  pub channel_id : RowId
  pub raw_model_name : String
  pub quota_limit : Option ℤ
  pub quota_window : Option String
  pub used_quota : ℤ
  pub last_reset_at : Option String
  pub quota_status : String

-- `parse` is `parse_db_datetime`, the formats of chrono.
module _ (parse : String → Option Instant) where
  state_of_row : DiscoveredModel → SmallModelState
  unfolding quota_window_from_db_str quota_status_from_db_str
  state_of_row row = record {
    channel_id = row.channel_id;
    upstream = row.raw_model_name;
    window = elim row.quota_window [ none ↦ none | some w ↦ quota_window_from_db_str w ];
    limit = row.quota_limit;
    used = row.used_quota;
    last_reset_at = elim row.last_reset_at [ none ↦ none | some t ↦ parse t ];
    status = quota_status_from_db_str row.quota_status;
  }

  insert_rows :
      List DiscoveredModel
      → Map (RowId × String) SmallModelState
      → Map (RowId × String) SmallModelState
  unfolding state_of_row
  insert_rows [] m = m
  insert_rows (row ∷ rows) m =
      insert_rows rows (insert (row.channel_id, row.raw_model_name) (state_of_row row) m)

  -- `rows` is what the database answers: `none` if it is not attached or the query fails.
  unfoldable pub load_small_model_quota_from_db :
      Option (List DiscoveredModel) → HealthManager → HealthManager
  unfolding insert_rows
  load_small_model_quota_from_db none h = h
  load_small_model_quota_from_db (some rows) h = record h {
    small_model_states = insert_rows rows h.small_model_states;
  }

-- Every key forgets its windows that are over.
drop_expired : Instant → KeyRuntimeState → KeyRuntimeState
unfolding is_cooling
drop_expired now state = record state { cooldowns = retain (is_cooling now) state.cooldowns }

module _ (cal : Calendar) where
  unfoldable pub period_rolled : QuotaWindow → Option Instant → Instant → Bool
  period_rolled total last now = false
  period_rolled day none now = true
  period_rolled day (some t) now = not (cal.date t == cal.date now)
  period_rolled month none now = true
  period_rolled month (some t) now =
      not (cal.year t == cal.year now) || not (cal.month_of t == cal.month_of now)

  -- Does the loop reset this entry?
  unfoldable pub is_due : Instant → SmallModelState → Bool
  unfolding period_rolled
  is_due now s = elim s.window [ none ↦ false | some w ↦ period_rolled w s.last_reset_at now ]

  reset_if_due : Instant → SmallModelState → SmallModelState
  unfolding is_due
  reset_if_due now s =
      if is_due now s
      then record s { used = pos 0; status = available; last_reset_at = some now }
      else s

  -- The pairs of which the loop keeps a note.
  due_entries : Instant → Map (RowId × String) SmallModelState → List (RowId × String)
  unfolding is_due
  due_entries now [] = []
  due_entries now ((_, s) ∷ m) =
      if is_due now s then (s.channel_id, s.upstream) ∷ due_entries now m else due_entries now m

  persist_small_model_reset :
      RowId × String → HealthManager × Option ConfigCache → HealthManager × Option ConfigCache
  unfolding persist
  persist_small_model_reset (channel_id, upstream) (h, cache) = (
    record h { db = persist (small_model_reset channel_id upstream) h.db },
    elim cache [
      | none ↦ none
      | some c ↦ some (update_small_model_quota channel_id upstream (pos 0) available c)
    ],
  )

  pub persist_all :
      List (RowId × String)
      → HealthManager × Option ConfigCache
      → HealthManager × Option ConfigCache
  unfolding persist_small_model_reset
  persist_all [] hc = hc
  persist_all (e ∷ es) hc = persist_all es (persist_small_model_reset e hc)

  unfoldable pub check_small_model_quota_resets :
      Instant → HealthManager × Option ConfigCache → HealthManager × Option ConfigCache
  unfolding reset_if_due due_entries persist_all
  check_small_model_quota_resets now (h, cache) =
      persist_all (due_entries now h.small_model_states) (
        record h { small_model_states = map_values (reset_if_due now) h.small_model_states },
        cache,
      )

  unfoldable pub check_recoveries :
      Instant → HealthManager × Option ConfigCache → HealthManager × Option ConfigCache
  unfolding drop_expired check_small_model_quota_resets
  check_recoveries now (h, cache) =
      check_small_model_quota_resets now
        (record h { states = map_values (drop_expired now) h.states }, cache)
