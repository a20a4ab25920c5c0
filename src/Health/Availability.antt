-- ===== src/Health/Availability.antt =====
-- crates/core/src/health.rs: when a key may be used for a model, after each of the methods.
use chenni_x_api.Prelude.Tests.{◌==◌, ==_refl, leb, if◌then◌else◌}
use chenni_x_api.Prelude.Lists.{any}
use chenni_x_api.Prelude.Maps.{Map, get, insert, nat_eq, string_eq, get-insert, get-insert_self}
use chenni_x_api.Prelude.{
  ℕ, ◌+◌, ◌*◌, min, ◌≡◌, ◌≢◌, refl, ◌⊎◌, String, eq_iff, true, false, ◌||◌, List, [], ◌∷◌, arith,
}
use chenni_x_api.Common.Types.{RowId, KeyStatus, active, status_is_available, status_is_cooldown}
use chenni_x_api.Health.{
  Instant, nanos_per_sec, u32_max, KeyRuntimeState, HealthManager, key_or_new, entry_or_new,
  check_available, state_allows, is_available, backoff_secs, bump, mark_cooldown, mark_disabled,
  reset_key, restore_disabled, restore_keys,
}

-- The status lets the key be used.
abbrev pub Usable : KeyStatus → Type 0
Usable s = (status_is_available s || status_is_cooldown s) ≡ true

-- The failures in a row of the key on the model.
abbrev pub failures : RowId → String → HealthManager → ℕ
failures key_id model h =
    (entry_or_new model (key_or_new key_id h.states).cooldowns).consecutive_failures

-- The end of the window that a failure at `now` opens.
abbrev pub window_end : Instant → RowId → String → HealthManager → Instant
window_end now key_id model h =
    now + backoff_secs (min (failures key_id model h + 1) u32_max) * nanos_per_sec

check_available-insert :
    (t : Instant) (k j : RowId) (st : KeyRuntimeState) (m : Map RowId KeyRuntimeState) (x : String)
    → check_available t (insert k st m) j x
      ≡ (if k == j then state_allows t st x else check_available t m j x)
unfolding check_available
check_available-insert t k j st m x = ground (arith, get-insert j k st m)

pub check_available-eq :
    (t : Instant) (k : RowId) (m : Map RowId KeyRuntimeState) (x : String)
    → check_available t m k x ≡ state_allows t (key_or_new k m) x
unfolding check_available key_or_new state_allows get
check_available-eq t k m x = ground arith

-- A failed key is unavailable for the model exactly until its window ends, where its status lets
-- it be used; the window follows from the number of failures in a row.
pub mark_cooldown_window :
    (now t : Instant) (key_id : RowId) (model : String) (h : HealthManager)
    → Usable (key_or_new key_id h.states).status
    → is_available t (mark_cooldown now key_id model h) key_id model
      ≡ leb (window_end now key_id model h) t
unfolding mark_cooldown is_available
mark_cooldown_window now t key_id model h u =
    rw (check_available-insert, ==_refl key_id)
      (ground (
        arith,
        get-insert_self model (bump now (entry_or_new model (key_or_new key_id h.states).cooldowns))
            (key_or_new key_id h.states).cooldowns,
      ))

-- A failure of a key on a model leaves every other pair of a key and a model as available as
-- before.
pub mark_cooldown_isolated :
    (now t : Instant) (key_id other_key : RowId) (model other : String) (h : HealthManager)
    → (other_key ≢ key_id) ⊎ (other ≢ model)
    → is_available t (mark_cooldown now key_id model h) other_key other
      ≡ is_available t h other_key other
unfolding mark_cooldown is_available state_allows
mark_cooldown_isolated now t key_id other_key model other h away = rw check_available-insert (
    ground (
      arith,
      check_available-eq t other_key h.states other,
      get-insert other model (bump now (entry_or_new model (key_or_new key_id h.states).cooldowns))
          (key_or_new key_id h.states).cooldowns,
      eq_iff model other,
    ))

-- A disabled key is available for no model at any time, whatever its cooldowns; every other key is
-- as available as before.
pub mark_disabled_blocks :
    (t : Instant) (key_id other_key : RowId) (model : String) (h : HealthManager)
    → is_available t (mark_disabled key_id h) other_key model
      ≡ (if key_id == other_key then false else is_available t h other_key model)
unfolding mark_disabled is_available state_allows
mark_disabled_blocks t key_id other_key model h = rw check_available-insert refl

restore_keys-available :
    (t : Instant) (ids : List RowId) (m : Map RowId KeyRuntimeState) (key_id : RowId)
    (model : String)
    → check_available t (restore_keys ids m) key_id model
      ≡ (any (λ i. i == key_id) ids || check_available t m key_id model)
unfolding restore_keys state_allows get
restore_keys-available t [] m key_id model = refl
restore_keys-available t (i ∷ ids) m key_id model = ground (
  arith,
  restore_keys-available t ids (reset_key active i m) key_id model,
  check_available-insert t i key_id (record (key_or_new i m) { status = active; cooldowns = [] }) m
      model,
)

-- A restored key is available for every model at once, also where a cooldown was running; every
-- other key is as available as before.
pub restore_disabled_frees :
    (t : Instant) (ids : List RowId) (key_id : RowId) (model : String) (h : HealthManager)
    → is_available t (restore_disabled ids h) key_id model
      ≡ (any (λ i. i == key_id) ids || is_available t h key_id model)
unfolding restore_disabled is_available
restore_disabled_frees t ids key_id model h = restore_keys-available t ids h.states key_id model
