-- ===== src/Health/Quota/Resets.antt =====
-- crates/core/src/health.rs, `check_small_model_quota_resets`: which quotas the background loop
-- resets, and that it resets each once per period.
use mathlib.Core.Option
use chenni_x_api.Prelude.Tests.{==_refl, if◌then◌else◌}
use chenni_x_api.Prelude.Int.{pos}
use chenni_x_api.Prelude.Maps.{Map, get, map_values, pair_eq, nat_eq, string_eq, get-map_values}
use chenni_x_api.Prelude.{◌≡◌, refl, ap, ◌∙◌, String, false, Option, some, [], ◌∷◌, arith}
use chenni_x_api.Common.Types.{RowId}
use chenni_x_api.Cache.{available}
use chenni_x_api.Cache.Store.{ConfigCache}
use chenni_x_api.Health.{Instant, HealthManager, SmallModelState}
use chenni_x_api.Health.Quota.{
  Calendar, period_rolled, is_due, reset_if_due, due_entries, persist_all, check_recoveries,
  check_small_model_quota_resets, drop_expired,
}
use chenni_x_api.Health.Quota.Recovery.{persist_all-states}

check_recoveries-small_models :
    (cal : Calendar) (now : Instant) (h : HealthManager) (cache : Option ConfigCache)
    → (check_recoveries cal now (h, cache)).0.small_model_states
      ≡ map_values (reset_if_due cal now) h.small_model_states
unfolding check_recoveries check_small_model_quota_resets
check_recoveries-small_models cal now h cache =
    (persist_all-states cal (due_entries cal now h.small_model_states) (
      record {
        states = map_values (drop_expired now) h.states;
        small_model_states = map_values (reset_if_due cal now) h.small_model_states;
        db = h.db;
      },
      cache,
    )).1

-- A small model whose window has rolled over starts the new period with nothing used and available;
-- every other one keeps its state.
quota_after_check :
    (cal : Calendar) (now : Instant) (h : HealthManager) (cache : Option ConfigCache)
    (channel_id : RowId) (upstream : String)
    → get (channel_id, upstream) (check_recoveries cal now (h, cache)).0.small_model_states
      ≡ Option.map
          (λ s.
            if is_due cal now s
            then record s { used = pos 0; status = available; last_reset_at = some now }
            else s)
          (get (channel_id, upstream) h.small_model_states)
unfolding reset_if_due
quota_after_check cal now h cache channel_id upstream =
    ap (get (channel_id, upstream)) (check_recoveries-small_models cal now h cache)
    ∙ get-map_values (channel_id, upstream) (reset_if_due cal now) h.small_model_states

is_due-reset :
    (cal : Calendar) (now : Instant) (s : SmallModelState)
    → is_due cal now (reset_if_due cal now s) ≡ false
unfolding reset_if_due is_due period_rolled
is_due-reset cal now s =
    ground (arith, ==_refl (cal.date now), ==_refl (cal.year now), ==_refl (cal.month_of now))

due_entries-reset :
    (cal : Calendar) (now : Instant) (m : Map (RowId × String) SmallModelState)
    → due_entries cal now (map_values (reset_if_due cal now) m) ≡ []
unfolding due_entries map_values
due_entries-reset cal now [] = refl
due_entries-reset cal now ((k, s) ∷ m) =
    ground (arith, is_due-reset cal now s, due_entries-reset cal now m)

nothing_due :
    (cal : Calendar) (now : Instant) (h : HealthManager) (cache : Option ConfigCache)
    → due_entries cal now h.small_model_states ≡ []
    → ((check_recoveries cal now (h, cache)).0.db ≡ h.db)
      × ((check_recoveries cal now (h, cache)).1 ≡ cache)
unfolding check_recoveries check_small_model_quota_resets persist_all
nothing_due cal now h cache e = (rw (e, persist_all), rw (e, persist_all))

-- A second check at the same instant resets nothing more: it asks for no write to the database and
-- leaves the configuration cache alone.
check_recoveries_once :
    (cal : Calendar) (now : Instant) (h : HealthManager) (cache : Option ConfigCache)
    → let (h', cache') = check_recoveries cal now (h, cache) in
      let (h'', cache'') = check_recoveries cal now (h', cache') in
      (h''.db ≡ h'.db) × (cache'' ≡ cache')
check_recoveries_once cal now h cache =
    nothing_due cal now (check_recoveries cal now (h, cache)).0
      (check_recoveries cal now (h, cache)).1
      (rw (check_recoveries-small_models cal now h cache)
        (due_entries-reset cal now h.small_model_states))
