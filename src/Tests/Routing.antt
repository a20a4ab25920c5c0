-- ===== src/Tests/Routing.antt =====
-- Names, bindings and keys of a small configuration, as in crates/core/src/router.rs's own tests.
use mathlib.Core.List.{flatten}
use chenni_x_api.Prelude.Int.{pos}
use chenni_x_api.Prelude.Lists.{All}
use chenni_x_api.Prelude.{ℕ, ◌≡◌, String, Bool, true, none, some, List, [], ◌∷◌, Perm}
use chenni_x_api.Common.Text.{is_blank, trim}
use chenni_x_api.Common.Types.{RowId, ChannelConfig, KeyConfig, openai_compatible, paid, active}
use chenni_x_api.Normalizer.{resolve, reload}
use chenni_x_api.Normalizer.Resolution.{resolve-reload}
use chenni_x_api.Cache.{priority, load_balance}
use chenni_x_api.Cache.Store.{Candidate}
use chenni_x_api.Router.{RoutedKey, route}
use chenni_x_api.Router.Eligible.{eligible, route-eligible}
use chenni_x_api.Router.Order.{IsRanked, route-IsRanked}

-- ASCII names only: folding changes nothing here.
abbrev pub lower : String → String
lower s = s

resolve-reload_example :
    resolve lower " gpt-4o " (reload lower (("gpt-4o", (1, "GPT-4o")) ∷ [])) ≡ some (1, "GPT-4o")
unfolding is_blank trim
resolve-reload_example = resolve-reload lower " gpt-4o " (("gpt-4o", (1, "GPT-4o")) ∷ [])

abbrev pub channel_of : RowId → String → ChannelConfig
channel_of id group = record {
  id = id;
  name = "channel";
  provider = openai_compatible;
  base_url = "http://upstream";
  group = group;
}

abbrev pub key_of : RowId → RowId → ℕ → KeyConfig
key_of id channel_id rank = record {
  id = id;
  channel_id = channel_id;
  api_key = "sk";
  label = none;
  cost_tier = paid;
  key_priority = pos rank;
  price_per_1k_tokens = none;
  free_quota = none;
  used_quota = 0;
  quota_reset_period = none;
  status = active;
}

-- Two bindings open to the group "vip", the second preferred, and one that is not.
abbrev bindings : List Candidate
bindings =
    record {
      channel = channel_of 1 "default,vip";
      keys = key_of 11 1 2 ∷ key_of 12 1 1 ∷ [];
      upstream_model_name = "gpt-4o";
      priority = pos 5;
      weight = pos 3;
    }
    ∷ record {
      channel = channel_of 2 "vip";
      keys = key_of 21 2 1 ∷ [];
      upstream_model_name = "gpt-4o-mini";
      priority = pos 1;
      weight = pos 1;
    }
    ∷ record {
      channel = channel_of 3 "default";
      keys = key_of 31 3 1 ∷ [];
      upstream_model_name = "gpt-4o";
      priority = pos 0;
      weight = pos 1;
    }
    ∷ []

abbrev anything : RowId → String → Bool
anything _ _ = true

abbrev first_number : ℕ → ℕ → ℕ
first_number _ _ = 0

route-eligible_example :
    Perm
      (flatten (route first_number bindings "vip" anything load_balance anything))
      (eligible "vip" anything anything bindings)
route-eligible_example = route-eligible first_number bindings "vip" anything load_balance anything

route-IsRanked_example :
    All IsRanked (route first_number bindings "vip" anything load_balance anything)
route-IsRanked_example = route-IsRanked first_number bindings "vip" anything load_balance anything

-- The groups of one key each, of the weights 3 and 1.
abbrev heavy : RoutedKey
heavy = record {
  channel = channel_of 1 "vip";
  key = key_of 11 1 1;
  upstream_model_name = "gpt-4o";
  binding_priority = pos 5;
  weight = pos 3;
}

abbrev light : RoutedKey
light = record {
  channel = channel_of 2 "vip";
  key = key_of 21 2 1;
  upstream_model_name = "gpt-4o";
  binding_priority = pos 1;
  weight = pos 1;
}
