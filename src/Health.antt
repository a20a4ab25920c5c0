-- ===== src/Health.antt =====
-- crates/core/src/health.rs: the health of the upstream keys and the quotas of the small models.
-- An instant is a number of nanoseconds; `Utc::now()` is an argument of the method that reads it.
pub mod Backoff
pub mod Availability
pub mod Quota
use chenni_x_api.Prelude.Tests.{◌==◌, ltb, if◌then◌else◌}
use chenni_x_api.Prelude.Int.{ℤ, pos}
use chenni_x_api.Prelude.Maps.{Map, get, insert, retain, map_values, nat_eq, string_eq, pair_eq}
use chenni_x_api.Prelude.{
  ℕ, ◌+◌, ◌*◌, ◌^◌, min, String, Bool, true, false, not, ◌||◌, ◌&&◌, Option, none, some, List, [],
  ◌∷◌,
}
use chenni_x_api.Common.Types.{
  RowId, KeyStatus, active, disabled, status_is_available, status_is_cooldown, status_is_active,
}
use chenni_x_api.Cache.{QuotaWindow, day, month, total, QuotaStatus, available, quota_is_available}
use chenni_x_api.Cache.Store.{ConfigCache, update_small_model_quota}

-- `DateTime<Utc>`, in nanoseconds since the epoch.
abbrev pub Instant : Type 0
Instant = ℕ

abbrev pub nanos_per_sec : ℕ
nanos_per_sec = 1_000_000_000

abbrev pub u32_max : ℕ
u32_max = 4_294_967_295

abbrev pub u64_max : ℕ
u64_max = 18_446_744_073_709_551_615

abbrev pub max_cooldown_secs : ℕ
max_cooldown_secs = 1800

pub record CooldownEntry : Type 0 where
  pub cooldown_until : Option Instant
  pub consecutive_failures : ℕ

abbrev pub fresh_entry : CooldownEntry
fresh_entry = record { cooldown_until = none; consecutive_failures = 0 }

pub record KeyRuntimeState : Type 0 where
  pub key_id : RowId
  pub status : KeyStatus
  pub cooldowns : Map String CooldownEntry
  pub used_quota_this_period : ℕ

-- `KeyRuntimeState::new`
abbrev pub new_key : RowId → KeyRuntimeState
new_key id = record { key_id = id; status = active; cooldowns = []; used_quota_this_period = 0 }

pub record SmallModelState : Type 0 where
  pub channel_id : RowId
  pub upstream : String
  pub window : Option QuotaWindow
  pub limit : Option ℤ
  pub used : ℤ
  pub last_reset_at : Option Instant
  pub status : QuotaStatus

-- A write to the database that a method asks for; the method goes on if it fails.
pub data Persisted : Type 0 where
  key_status : RowId → KeyStatus → Persisted
  small_model_reset : RowId → String → Persisted

-- `db` is the list of writes asked for, the newest first, where a database is attached.
pub record HealthManager : Type 0 where
  pub states : Map RowId KeyRuntimeState
  pub small_model_states : Map (RowId × String) SmallModelState
  pub db : Option (List Persisted)

unfoldable pub new : HealthManager
new = record { states = []; small_model_states = []; db = none }

persist : Persisted → Option (List Persisted) → Option (List Persisted)
persist w none = none
persist w (some ws) = some (w ∷ ws)

-- `map.entry(key_id).or_insert_with(|| KeyRuntimeState::new(key_id))`
unfoldable pub key_or_new : RowId → Map RowId KeyRuntimeState → KeyRuntimeState
key_or_new key_id m = elim (get key_id m) [ none ↦ new_key key_id | some state ↦ state ]

-- `state.cooldowns.entry(..).or_default()`
unfoldable pub entry_or_new : String → Map String CooldownEntry → CooldownEntry
entry_or_new model m = elim (get model m) [ none ↦ fresh_entry | some entry ↦ entry ]

-- Is the entry's window still open?
unfoldable pub is_cooling : Instant → CooldownEntry → Bool
is_cooling now entry = elim entry.cooldown_until [ none ↦ false | some until ↦ ltb now until ]

cooldown_allows : Instant → Option CooldownEntry → Bool
unfolding is_cooling
cooldown_allows now none = true
cooldown_allows now (some entry) = not (is_cooling now entry)

-- The `Some(state)` branch of `check_available`.
pub state_allows : Instant → KeyRuntimeState → String → Bool
unfolding cooldown_allows
state_allows now state upstream_model =
    if not (status_is_available state.status || status_is_cooldown state.status)
    then false
    else cooldown_allows now (get upstream_model state.cooldowns)

unfoldable pub check_available : Instant → Map RowId KeyRuntimeState → RowId → String → Bool
unfolding state_allows
check_available now m key_id upstream_model = elim (get key_id m) [
  | none ↦ true
  | some state ↦ state_allows now state upstream_model
]

unfoldable pub is_available : Instant → HealthManager → RowId → String → Bool
unfolding check_available
is_available now h = check_available now h.states

-- `try_read` fails while a writer holds the lock: `contended` says whether it does.
unfoldable pub try_is_available : Bool → Instant → HealthManager → RowId → String → Bool
unfolding check_available
try_is_available contended now h key_id upstream_model =
    if contended then true else check_available now h.states key_id upstream_model

-- The length of the window after the `n`th failure in a row.
unfoldable pub backoff_secs : ℕ → ℕ
backoff_secs n = min (2 ^ min n 31) max_cooldown_secs

bump : Instant → CooldownEntry → CooldownEntry
unfolding backoff_secs
bump now entry =
    let n = min (entry.consecutive_failures + 1) u32_max in
    record {
      cooldown_until = some (now + backoff_secs n * nanos_per_sec);
      consecutive_failures = n;
    }

unfoldable pub mark_cooldown : Instant → RowId → String → HealthManager → HealthManager
unfolding key_or_new entry_or_new bump
mark_cooldown now key_id upstream_model h =
    let state = key_or_new key_id h.states in
    let entry = bump now (entry_or_new upstream_model state.cooldowns) in
    record h {
      states =
          insert key_id (record state { cooldowns = insert upstream_model entry state.cooldowns })
            h.states;
    }

-- The status is overwritten and the cooldowns are cleared.
reset_key : KeyStatus → RowId → Map RowId KeyRuntimeState → Map RowId KeyRuntimeState
unfolding key_or_new
reset_key status key_id m =
    insert key_id (record (key_or_new key_id m) { status = status; cooldowns = [] }) m

unfoldable pub mark_disabled : RowId → HealthManager → HealthManager
unfolding reset_key persist
mark_disabled key_id h = record h {
  states = reset_key disabled key_id h.states;
  db = persist (key_status key_id disabled) h.db;
}

unfoldable pub add_usage : RowId → ℕ → HealthManager → HealthManager
unfolding key_or_new
add_usage key_id tokens h =
    let state = key_or_new key_id h.states in
    record h {
      states =
          insert key_id
            (record state {
              used_quota_this_period = min (state.used_quota_this_period + tokens) u64_max;
            })
            h.states;
    }

restore_keys : List RowId → Map RowId KeyRuntimeState → Map RowId KeyRuntimeState
unfolding reset_key
restore_keys [] m = m
restore_keys (id ∷ ids) m = restore_keys ids (reset_key active id m)

persist_active : List RowId → Option (List Persisted) → Option (List Persisted)
unfolding persist
persist_active [] db = db
persist_active (id ∷ ids) db = persist_active ids (persist (key_status id active) db)

unfoldable pub restore_disabled : List RowId → HealthManager → HealthManager
unfolding restore_keys persist_active
restore_disabled key_ids h = record h {
  states = restore_keys key_ids h.states;
  db = persist_active key_ids h.db;
}

unfoldable pub sync_key_from_db : RowId → KeyStatus → HealthManager → HealthManager
unfolding key_or_new
sync_key_from_db key_id new_status h =
    let state = key_or_new key_id h.states in
    record h {
      states =
          insert key_id
            (record state {
              status = new_status;
              cooldowns = if status_is_active new_status then [] else state.cooldowns;
            })
            h.states;
    }

unfoldable pub get_state : RowId → HealthManager → Option KeyRuntimeState
get_state key_id h = get key_id h.states

load_disabled : List RowId → Map RowId KeyRuntimeState → Map RowId KeyRuntimeState
unfolding key_or_new
load_disabled [] m = m
load_disabled (id ∷ ids) m =
    load_disabled ids (insert id (record (key_or_new id m) { status = disabled }) m)

-- `ids` is what the database answers: `none` if it is not attached or the query fails.
unfoldable pub load_disabled_from_db : Option (List RowId) → HealthManager → HealthManager
unfolding load_disabled
load_disabled_from_db none h = h
load_disabled_from_db (some ids) h = record h { states = load_disabled ids h.states }
