-- ===== src/Tests/Executor.antt =====
-- Executions over the storage adapter, with one upstream that answers and one that refuses.
use chenni_x_api.Prelude.Int.{pos, ◌-ℤ◌, ◌+ℤ◌, wrap_i64}
use chenni_x_api.Prelude.Maps.{get, pair_beq, pair_eq}
use chenni_x_api.Prelude.{ℕ, ◌+◌, ◌*◌, ◌/◌, ◌%◌, ◌≡◌, refl, inr, false, none, some, [], ◌∷◌, arith}
use chenni_x_api.Common.Types.{is_configured, per_call}
use chenni_x_api.Common.Errors.{upstream}
use chenni_x_api.Common.Results.{ok}
use chenni_x_api.Prelude.Sorting.{sort_by}
use chenni_x_api.Common.Text.{split, trim}
use chenni_x_api.Storage.Table.{select, update_where}
use chenni_x_api.Storage.Ledger.{Db, adapter}
use chenni_x_api.Storage.Ledger.Balances.{adapter_contract, refund-commits}
use chenni_x_api.Cache.{CacheData, routing_strategy_for, pricing_for, call, available}
use chenni_x_api.Cache.Store.{ConfigCache, get_small_model_quota}
use chenni_x_api.Health.{new}
use chenni_x_api.Tracker.{UsageWriter, UsageLog, track_success}
use chenni_x_api.Tracker.Quota.{TrackedIf, track_success_counts}
use chenni_x_api.Json.{Json, object, no_members}
use chenni_x_api.Cache.Laws.{in_use}
use chenni_x_api.Executor.{openai, ExecutionContext}
use chenni_x_api.Executor.Bodies.{Translators}
use chenni_x_api.Executor.Costs.{Floats, float}
use chenni_x_api.Executor.Range.{Saturates}
use chenni_x_api.Executor.Attempts.{Outside, World, refused, answered}
use chenni_x_api.Executor.Run.{Setting, select_keys, execute_stream}
use chenni_x_api.Executor.Serve.{Answer, execute}
use chenni_x_api.Prelude.Lists.{take}
use chenni_x_api.Prelude.Picks.{Picks}
use chenni_x_api.Executor.Tries.{tried, names_of}
use chenni_x_api.Executor.Limit.{groups_or_none, of_first_three, execute-Picks}
use chenni_x_api.Executor.Quotas.{quotas_unseen}
use chenni_x_api.Health.Quota.{is_small_model_available}
use chenni_x_api.Executor.Money.{RefundsCommit, StreamCharged, execute_stream_charges}
use chenni_x_api.Executor.Deliveries.{ExecuteCharged}
use chenni_x_api.Executor.Charges.{execute_charges}
use chenni_x_api.Tests.Billing.{db, db_with, db-IsValid, healthy}
use chenni_x_api.Tests.Routing.{lower, channel_of, key_of}

pub healthy_commits : RefundsCommit (adapter healthy)
unfolding adapter
healthy_commits u t a b s = refund-commits healthy (λ _. refl) u t a b s

-- Whole numbers in place of floats, and products in millionths.
abbrev pub floats : Floats
floats = record {
  of_u64 = λ n. n;
  of_i64 = λ _. 0;
  to_u64 = λ x. x;
  add = λ x y. x + y;
  mul = λ x y. x * y / 1_000_000;
  div = λ x y. x / y;
  round_i64 = λ x. pos (x % 9_223_372_036_854_775_808);
}

pub floats_saturate : Saturates floats
floats_saturate x = record { above = omega arith; below = omega arith }

-- The usage tables of the tests: a count of the rows.
abbrev pub writer : UsageWriter ℕ
writer = record {
  log_usage = λ _ n. (ok tt, n + 1);
  add_key_usage = λ _ _ n. (ok tt, n);
  add_small_model_usage = λ _ _ _ _ n. (ok tt, n);
}

abbrev pub config : CacheData
config = record {
  channels = channel_of 1 "vip" ∷ [];
  keys = (1, key_of 11 1 1 ∷ []) ∷ [];
  bindings =
      (
        5,
        record { channel_id = 1; upstream_model_name = "gpt-4o"; priority = pos 1; weight = pos 1 }
            ∷ [],
      )
      ∷ [];
  channel_model_pricing =
      (
        (5, 1, "gpt-4o"),
        record {
          billing_type = per_call;
          input_price = 0;
          output_price = 0;
          call_price = 7;
          billing_expr = none;
        },
      )
      ∷ [];
  routing_strategy = [];
  small_model_quota =
      (
        (1, "gpt-4o"),
        record {
          limit = some (pos 1);
          unit = some call;
          window = none;
          used = pos 0;
          last_reset_at = none;
          status = available;
        },
      )
      ∷ [];
}

abbrev pub setting : Setting
setting = record {
  loader = record { load_all = ok config; load_alias_mapping = ok [] };
  draw = λ _ _. 0;
  contended = λ _ _. false;
  quota_contended = λ _ _. false;
  floats = floats;
  evaluate = λ _ _ _ _. float 0;
  from_slice = λ _. none;
  to_vec = λ _. inr "{}";
}

abbrev pub ctx : ExecutionContext
ctx = record {
  user_id = 1;
  token_id = 10;
  user_group = "vip";
  model_id = 5;
  canonical_name = "gpt-4o";
}

abbrev pub translators : Translators
translators = record {
  openai_to_claude_request = ok;
  claude_to_openai_request = ok;
  claude_to_openai_response = ok;
  openai_to_claude_response = ok;
}

-- An upstream that answers, and one that finds the request bad.
abbrev pub good : Outside Db ℕ Answer
good = record {
  repo = adapter healthy;
  writer = writer;
  translators = translators;
  send = λ _ _ _. answered (200, "{}");
  clock = λ n. n;
  timeout = 60;
  display = λ _. "error";
  lower = lower;
}

abbrev bad : Outside Db ℕ Answer
bad = record good { send = λ _ _ _. refused (upstream 422 "") }

abbrev pub start : World Db ℕ
start = record {
  ledger = db;
  usage = 0;
  health = new;
  cache = record { cached = none; normalizer = [] };
  moment = 0;
}

abbrev request : Json
request = object no_members

-- The upstream answers: the price of one call, 7, is spent.
spent_7 : (execute setting good ctx openai request start).1.ledger ≡ db_with 7 493 1
unfolding execute routing_strategy_for get sort_by split trim new pricing_for is_configured adapter
    select update_where ◌-ℤ◌ ◌+ℤ◌ wrap_i64
spent_7 = refl

-- The upstream refuses: nothing is spent.
spent_nothing : (execute setting bad ctx openai request start).1.ledger ≡ db
unfolding execute routing_strategy_for get sort_by split trim new pricing_for is_configured adapter
    select update_where ◌-ℤ◌ ◌+ℤ◌ wrap_i64
spent_nothing = refl

execute_charges_example :
    ExecuteCharged setting ctx floats_saturate good
      (adapter_contract healthy)
      healthy_commits
      (in_use setting.loader start.cache)
      openai
      request
      db
      (execute setting good ctx openai request start).0
      (execute setting good ctx openai request start).1.ledger
unfolding adapter_contract
execute_charges_example =
    execute_charges setting ctx floats_saturate good (adapter_contract healthy) healthy_commits
      openai request start db-IsValid

execute_stream_charges_example :
    StreamCharged setting ctx floats_saturate bad
      (adapter_contract healthy)
      healthy_commits
      db
      (execute_stream setting bad ctx openai request start).0
      (execute_stream setting bad ctx openai request start).1.ledger
unfolding adapter_contract
execute_stream_charges_example =
    execute_stream_charges setting ctx floats_saturate bad (adapter_contract healthy)
      healthy_commits openai request start db-IsValid

abbrev row : UsageLog
row = record {
  user_id = 1;
  token_id = 10;
  channel_id = 1;
  key_id = 11;
  model_id = 5;
  usage = record { prompt_tokens = 3; completion_tokens = 4; total_tokens = 7 };
  quota_cost = pos 7;
  request_type = "chat";
  status = "success";
  error = none;
}

abbrev loaded : ConfigCache
loaded = record { cached = some config; normalizer = [] }

track_success_counts_example :
    TrackedIf
      (pair_beq (1, "gpt-4o") (1, "gpt-4o"))
      row.usage
      (get_small_model_quota 1 "gpt-4o" loaded)
      (get_small_model_quota 1 "gpt-4o" (track_success writer row "gpt-4o" (new, (loaded, 0))).1.0)
track_success_counts_example = track_success_counts writer row "gpt-4o" new loaded 0 1 "gpt-4o"

execute-Picks_example :
    Picks (tried (execute setting good ctx openai request start).0) (
      names_of (
        take 3
          (groups_or_none setting good ctx openai request (select_keys setting good ctx start))))
    × (execute setting good ctx openai request start
        ≡ of_first_three setting good ctx openai request (select_keys setting good ctx start))
execute-Picks_example = execute-Picks setting good ctx openai request start

quotas_unseen_example :
    (let before = is_small_model_available false new 1 "gpt-4o" in
      (is_small_model_available false
          (execute setting good ctx openai request start).1.health
          1
          "gpt-4o"
        ≡ before)
      × (is_small_model_available false
            (execute_stream setting bad ctx openai request start).1.health
            1
            "gpt-4o"
          ≡ before))
quotas_unseen_example = quotas_unseen ctx start setting good bad openai request false 1 "gpt-4o"
