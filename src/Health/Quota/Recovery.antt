-- ===== src/Health/Quota/Recovery.antt =====
-- crates/core/src/health.rs, `check_recoveries`: the clean-up changes no answer. Then a step
-- relation over the methods, for what holds after any history.
use chenni_x_api.Prelude.Tests.{◌==◌, ==_iff, if◌then◌else◌}
use chenni_x_api.Prelude.Maps.{
  Map, get, insert, map_values, nat_eq, string_eq, pair_eq, Distinct, keep_some, get-retain,
  get-map_values, get-insert,
}
use chenni_x_api.Prelude.{
  ℕ, ◌+◌, ◌≤◌, min, ◌≡◌, refl, ap, ◌∙◌, String, false, Option, none, some, List, [], ◌∷◌, arith,
}
use chenni_x_api.Common.Types.{RowId, disabled}
use chenni_x_api.Cache.Store.{ConfigCache}
use chenni_x_api.Health.{
  Instant, CooldownEntry, KeyRuntimeState, HealthManager, is_cooling, check_available, state_allows,
  cooldown_allows, is_available, key_or_new, entry_or_new, bump, reset_key, u64_max, mark_cooldown,
  mark_disabled, add_usage,
}
use chenni_x_api.Health.Availability.{check_available-eq}
use chenni_x_api.Health.Quota.{
  Calendar, check_recoveries, check_small_model_quota_resets, persist_all,
  persist_small_model_reset, drop_expired, due_entries, reset_if_due,
}

-- Every key's cooldowns list each model once.
abbrev pub KeysDistinct : Map RowId KeyRuntimeState → Type 0
KeysDistinct [] = Unit
KeysDistinct ((_, st) ∷ m) = Distinct st.cooldowns × KeysDistinct m

pub persist_all-states :
    (cal : Calendar) (es : List (RowId × String)) (hc : HealthManager × Option ConfigCache)
    → ((persist_all cal es hc).0.states ≡ hc.0.states)
      × ((persist_all cal es hc).0.small_model_states ≡ hc.0.small_model_states)
unfolding persist_all
persist_all-states cal [] hc = (refl, refl)
persist_all-states cal (e ∷ es) hc = persist_all-states cal es (persist_small_model_reset cal e hc)

cooldown_allows-keep :
    (now t : Instant) (o : Option CooldownEntry)
    → now ≤ t
    → cooldown_allows t (keep_some (is_cooling now) o) ≡ cooldown_allows t o
unfolding cooldown_allows
cooldown_allows-keep now t none h = refl
cooldown_allows-keep now t (some e) h = ground arith

state_allows-drop_expired :
    (now t : Instant) (st : KeyRuntimeState) (model : String)
    → now ≤ t
    → Distinct st.cooldowns
    → state_allows t (drop_expired now st) model ≡ state_allows t st model
unfolding state_allows drop_expired
state_allows-drop_expired now t st model h d = ground (
  arith,
  get-retain model (is_cooling now) st.cooldowns d,
  cooldown_allows-keep now t (get model st.cooldowns) h,
)

check_available-drop_expired :
    (now t : Instant) (m : Map RowId KeyRuntimeState) (key_id : RowId) (model : String)
    → now ≤ t
    → KeysDistinct m
    → check_available t (map_values (drop_expired now) m) key_id model
      ≡ check_available t m key_id model
unfolding check_available get map_values
check_available-drop_expired now t [] key_id model h d = refl
check_available-drop_expired now t ((k, st) ∷ m) key_id model h d = ground (
  arith,
  state_allows-drop_expired now t st model h d.0,
  check_available-drop_expired now t m key_id model h d.1,
)

check_recoveries-states :
    (cal : Calendar) (now : Instant) (h : HealthManager) (cache : Option ConfigCache)
    → (check_recoveries cal now (h, cache)).0.states ≡ map_values (drop_expired now) h.states
unfolding check_recoveries check_small_model_quota_resets
check_recoveries-states cal now h cache =
    (persist_all-states cal (due_entries cal now h.small_model_states) (
      record {
        states = map_values (drop_expired now) h.states;
        small_model_states = map_values (reset_if_due cal now) h.small_model_states;
        db = h.db;
      },
      cache,
    )).0

-- Where no key lists a model twice, the background clean-up changes no answer from its own instant
-- on: recovery does not wait for it.
pub check_recoveries_unobservable :
    (cal : Calendar) (now t : Instant) (h : HealthManager) (cache : Option ConfigCache)
    (key_id : RowId) (model : String)
    → now ≤ t
    → KeysDistinct h.states
    → is_available t (check_recoveries cal now (h, cache)).0 key_id model
      ≡ is_available t h key_id model
unfolding check_recoveries is_available
check_recoveries_unobservable cal now t h cache key_id model le d =
    ap (λ m. check_available t m key_id model) (check_recoveries-states cal now h cache)
    ∙ check_available-drop_expired now t h.states key_id model le d

-- The methods that run without an administrator, as the steps of a history.
pub data Step : HealthManager → HealthManager → Type 0 where
  cools :
      (h : HealthManager) (now : Instant) (k : RowId) (m : String)
      → Step h (mark_cooldown now k m h)
  disables : (h : HealthManager) (k : RowId) → Step h (mark_disabled k h)
  uses : (h : HealthManager) (k : RowId) (tokens : ℕ) → Step h (add_usage k tokens h)
  recovers :
      (h : HealthManager) (cal : Calendar) (now : Instant) (cache : Option ConfigCache)
      → Step h (check_recoveries cal now (h, cache)).0

-- A history without an administrator: no `restore_disabled`, no `sync_key_from_db`.
pub data Reach (g : HealthManager) : HealthManager → Type 0 where
  here : Reach g g
  next : {h i : HealthManager} → Reach g h → Step h i → Reach g i

-- The key is disabled.
abbrev pub IsDisabled : RowId → HealthManager → Type 0
IsDisabled k h = (key_or_new k h.states).status ≡ disabled

key_or_new-insert :
    (k j : RowId) (st : KeyRuntimeState) (m : Map RowId KeyRuntimeState)
    → key_or_new j (insert k st m) ≡ (if k == j then st else key_or_new j m)
unfolding key_or_new
key_or_new-insert k j st m = ground (arith, get-insert j k st m)

key_or_new-drop_expired :
    (now : Instant) (k : RowId) (m : Map RowId KeyRuntimeState)
    → (key_or_new k (map_values (drop_expired now) m)).status ≡ (key_or_new k m).status
unfolding key_or_new drop_expired
key_or_new-drop_expired now k m = ground (arith, get-map_values k (drop_expired now) m)

Step-IsDisabled : {h i : HealthManager} (k : RowId) → Step h i → IsDisabled k h → IsDisabled k i
unfolding mark_cooldown mark_disabled add_usage reset_key
Step-IsDisabled k (cools h now j m) d = ground (
  arith,
  ==_iff j k,
  key_or_new-insert j k
      (record (key_or_new j h.states) {
        cooldowns =
            insert m (bump now (entry_or_new m (key_or_new j h.states).cooldowns))
              (key_or_new j h.states).cooldowns;
      })
      h.states,
)
Step-IsDisabled k (disables h j) d = ground (
  arith,
  key_or_new-insert j k (record (key_or_new j h.states) { status = disabled; cooldowns = [] })
      h.states,
)
Step-IsDisabled k (uses h j tokens) d = ground (
  arith,
  ==_iff j k,
  key_or_new-insert j k
      (record (key_or_new j h.states) {
        used_quota_this_period =
            min ((key_or_new j h.states).used_quota_this_period + tokens) u64_max;
      })
      h.states,
)
Step-IsDisabled k (recovers h cal now cache) d =
    ap (λ m. (key_or_new k m).status) (check_recoveries-states cal now h cache)
    ∙ key_or_new-drop_expired now k h.states
    ∙ d

Reach-IsDisabled : {g h : HealthManager} (k : RowId) → IsDisabled k g → Reach g h → IsDisabled k h
Reach-IsDisabled k d here = d
Reach-IsDisabled k d (next r st) = Step-IsDisabled k st (Reach-IsDisabled k d r)

-- A key whose status is Disabled stays unavailable, for every model and at every time, through any
-- history of cooldowns, usage, clean-ups and further disablings.
pub disabled_stays :
    (g h : HealthManager) (k : RowId) (model : String) (t : Instant)
    → IsDisabled k g
    → Reach g h
    → is_available t h k model ≡ false
unfolding is_available state_allows
disabled_stays g h k model t d r =
    ground (arith, check_available-eq t k h.states model, Reach-IsDisabled k d r)
