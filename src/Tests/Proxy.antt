-- ===== src/Tests/Proxy.antt =====
-- A request for the tests' model, through the whole of `proxy_request`.
use chenni_x_api.Prelude.Int.{◌-ℤ◌, ◌+ℤ◌, wrap_i64}
use chenni_x_api.Prelude.Maps.{get, insert}
use chenni_x_api.Prelude.{ℕ, ◌≡◌, refl, String, none, [], ◌∷◌}
use chenni_x_api.Prelude.Sorting.{sort_by}
use chenni_x_api.Common.Text.{split, trim}
use chenni_x_api.Common.Types.{AuthContext, is_configured, allows_model}
use chenni_x_api.Common.Errors.{ProxyError}
use chenni_x_api.Common.Results.{ok}
use chenni_x_api.Json.{Json, string, object, no_members, member, get_field, text_of}
use chenni_x_api.Storage.Ledger.{Db, adapter}
use chenni_x_api.Storage.Ledger.Balances.{adapter_contract}
use chenni_x_api.Storage.Table.{select, update_where}
use chenni_x_api.Cache.{routing_strategy_for, pricing_for}
use chenni_x_api.Health.{new}
use chenni_x_api.Normalizer.{reload, resolve}
use chenni_x_api.Cache.Store.{load}
use chenni_x_api.Cache.Laws.{in_use}
use chenni_x_api.Router.{RoutedKey}
use chenni_x_api.Executor.{openai}
use chenni_x_api.Executor.Attempts.{Reply, answered}
use chenni_x_api.Executor.Run.{Setting}
use chenni_x_api.Executor.Serve.{Answer}
use chenni_x_api.Routes.Proxy.{Gateway, proxy_request, client_model}
use chenni_x_api.Routes.Outcomes.{Accounts, proxy_request-Accounts}
use chenni_x_api.Routes.Permission.{OnlyIf, Named, proxy_request-OnlyIf}
use chenni_x_api.Tests.Billing.{alice, token, db_with, db-IsValid, healthy}
use chenni_x_api.Tests.Executor
use chenni_x_api.Tests.Executor.{good, healthy_commits, floats_saturate}

abbrev setting : Setting
setting = record Executor.setting {
  loader = record {
    load_all = ok Executor.config;
    load_alias_mapping = ok (("gpt-4o", (5, "gpt-4o")) ∷ []);
  };
}

abbrev auth : AuthContext
auth = record { user = record alice { group = "vip" }; token = token; client_ip = none }

abbrev body : Json
body = object (member "model" (string "gpt-4o") no_members)

abbrev prints : ProxyError → String
prints _ = "error"

abbrev send_stream : ℕ → RoutedKey → Json → Reply Answer
send_stream _ _ _ = answered (200, "{}")

abbrev idle : Gateway Db ℕ
idle = record { world = Executor.start; logged = [] }

spent_7 :
    (proxy_request auth openai body prints setting good send_stream idle).1.world.ledger
    ≡ db_with 7 493 1
unfolding proxy_request routing_strategy_for get insert sort_by split trim new pricing_for
    is_configured adapter select update_where ◌-ℤ◌ ◌+ℤ◌ wrap_i64 load reload resolve get_field
    text_of allows_model
spent_7 = refl

proxy_request-Accounts_example :
    Accounts auth openai body prints setting good send_stream floats_saturate
      (adapter_contract healthy)
      healthy_commits
      (in_use setting.loader idle.world.cache)
      idle
      (proxy_request auth openai body prints setting good send_stream idle)
unfolding adapter_contract
proxy_request-Accounts_example =
    proxy_request-Accounts auth openai body prints setting good send_stream floats_saturate
      (adapter_contract healthy) healthy_commits idle db-IsValid

proxy_request-OnlyIf_example :
    OnlyIf auth openai body prints setting good send_stream
      (Named auth openai body prints setting good send_stream
        (client_model auth openai body prints)
        idle)
      (proxy_request auth openai body prints setting good send_stream idle)
proxy_request-OnlyIf_example =
    proxy_request-OnlyIf auth openai body prints setting good send_stream idle
