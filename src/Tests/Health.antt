-- ===== src/Tests/Health.antt =====
-- Keys and small models at concrete instants, as in crates/core/src/health.rs's own tests.
use chenni_x_api.Prelude.Tests.{leb}
use chenni_x_api.Prelude.Int.{pos}
use chenni_x_api.Prelude.Maps.{get, insert, pair_eq}
use chenni_x_api.Prelude.{◌*◌, ◌/◌, ◌≡◌, refl, true, false, none, some, [], ◌∷◌, arith}
use chenni_x_api.Common.Types.{disabled}
use chenni_x_api.Cache.{day, exhausted}
use chenni_x_api.Health.{
  Instant, HealthManager, SmallModelState, new, mark_cooldown, mark_disabled, is_available,
  key_or_new,
}
use chenni_x_api.Health.Availability.{Usable, window_end, mark_cooldown_window}
use chenni_x_api.Health.Quota.{Calendar, check_recoveries}
use chenni_x_api.Health.Quota.Recovery.{
  check_recoveries_unobservable, cools, here, next, disabled_stays,
}

abbrev second : Instant
second = 1_000_000_000

-- Days of a hundred seconds, in one month.
abbrev calendar : Calendar
calendar = record { date = λ t. t / 100_000_000_000; year = λ _. 2026; month_of = λ _. 1 }

-- Key 7 has failed twice on "gpt-4o", at the first second; its window is four seconds.
abbrev failed_twice : HealthManager
failed_twice = mark_cooldown second 7 "gpt-4o" (mark_cooldown second 7 "gpt-4o" new)

still_cooling : is_available (4 * second) failed_twice 7 "gpt-4o" ≡ false
unfolding mark_cooldown new is_available get insert
still_cooling = refl

free_again : is_available (5 * second) failed_twice 7 "gpt-4o" ≡ true
unfolding mark_cooldown new is_available get insert
free_again = refl

new-Usable : Usable (key_or_new 7 new.states).status
unfolding key_or_new new get
new-Usable = refl

mark_cooldown_window_example :
    is_available (2 * second) (mark_cooldown second 7 "gpt-4o" new) 7 "gpt-4o"
    ≡ leb (window_end second 7 "gpt-4o" new) (2 * second)
mark_cooldown_window_example = mark_cooldown_window second (2 * second) 7 "gpt-4o" new new-Usable

check_recoveries_unobservable_example :
    is_available
      (6 * second)
      (check_recoveries calendar (5 * second) (failed_twice, none)).0
      7
      "gpt-4o"
    ≡ is_available (6 * second) failed_twice 7 "gpt-4o"
unfolding mark_cooldown new get insert
check_recoveries_unobservable_example =
    check_recoveries_unobservable calendar (5 * second) (6 * second) failed_twice none 7 "gpt-4o"
      (omega arith) ((refl, tt), tt)

-- Key 7 is disabled and then fails once more.
abbrev disabled_key : HealthManager
disabled_key = mark_disabled 7 new

disabled_stays_example :
    is_available (9_000 * second) (mark_cooldown second 7 "gpt-4o" disabled_key) 7 "gpt-4o" ≡ false
unfolding key_or_new mark_disabled new get insert
disabled_stays_example =
    disabled_stays disabled_key (mark_cooldown second 7 "gpt-4o" disabled_key) 7 "gpt-4o"
      (9_000 * second) is_disabled (next here (cools disabled_key second 7 "gpt-4o"))
  where
    is_disabled : (key_or_new 7 disabled_key.states).status ≡ disabled
    is_disabled = refl

-- A small model that has used up its day.
abbrev used_up : SmallModelState
used_up = record {
  channel_id = 3;
  upstream = "mini";
  window = some day;
  limit = some (pos 10);
  used = pos 10;
  last_reset_at = some second;
  status = exhausted;
}

abbrev with_small_model : HealthManager
with_small_model = record {
  states = [];
  small_model_states = ((3, "mini"), used_up) ∷ [];
  db = some [];
}
