-- ===== src/Routes/Proxy.antt =====
-- crates/server/src/routes/mod.rs, `proxy_request`: from a request to the executor, and the audit
-- log. A row has no request id and no times.
use chenni_x_api.Prelude.Int.{ℤ, pos}
use chenni_x_api.Prelude.Tests.{if◌then◌else◌}
use chenni_x_api.Prelude.{
  ℕ, String, ◌<>◌, Bool, true, false, not, Option, none, some, List, [], ◌∷◌, ◌++◌,
}
use chenni_x_api.Common.Types.{RowId, AuthContext, allows_model}
use chenni_x_api.Common.Errors.{ProxyError, invalid_request, model_not_found, http_status}
use chenni_x_api.Common.Results.{ProxyResult, ok, err}
use chenni_x_api.Json.{Json, get_field, text_of}
use chenni_x_api.Cache.Store.{load}
use chenni_x_api.Normalizer.{resolve}
use chenni_x_api.Executor.{
  EntryFormat, openai, claude, ExecutionContext, ExecutionResult, ExecutionFailure,
}
use chenni_x_api.Executor.Attempts.{Outside, World, Reply, Result, success, failure, panics}
use chenni_x_api.Executor.Run.{Setting, StreamBootstrap, execute_stream}
use chenni_x_api.Executor.Serve.{Answer, execute}
use chenni_x_api.Router.{RoutedKey}
use chenni_x_api.Translator.Parts.{as_bool}
use chenni_x_api.Routes.Sse.{join}

-- A row of `request_logs`.
pub record LogRow : Type 0 where
  pub client_ip : Option String
  pub path : String
  pub client_model : Option String
  pub normalized_model : String
  pub channel_name : Option String
  pub key_label : Option String
  pub attempted_keys : Option String
  pub upstream_status : Option ℕ
  pub upstream_model : Option String
  pub response_status : ℕ
  pub stream : Bool
  pub error_message : Option String
  pub user_id : RowId
  pub token_id : RowId
  pub quota_cost : ℤ

-- The gateway's state, with the rows that were handed to the log, which may lose one.
pub record Gateway (S W : Type 0) : Type 0 where
  pub world : World S W
  pub logged : List LogRow

-- What the client gets: a body, a stream, or an error.
pub data Outcome (A : Type 0) : Type 0 where
  responds : String → Outcome A
  streams : StreamBootstrap A → Outcome A
  fails : ProxyError → Outcome A
  crashes : Outcome A

abbrev pub path_of : EntryFormat → String
path_of openai = "/v1/chat/completions"
path_of claude = "/v1/messages"

unfoldable pub attempted_csv : List String → Option String
attempted_csv [] = none
attempted_csv (k ∷ ks) = some (join "," (k ∷ ks))

unfoldable pub wants_stream : Json → Bool
unfolding get_field
wants_stream body = elim (as_bool (get_field "stream" body)) [ none ↦ false | some b ↦ b ]

unfoldable pub failure_message : (ProxyError → String) → ExecutionFailure → String
failure_message display fail = elim fail.channel_name [
  | some ch ↦ elim fail.upstream_model_name [
    | some m ↦ "[channel=" <> ch <> ", model=" <> m <> "] " <> display fail.error
    | none ↦ "[channel=" <> ch <> "] " <> display fail.error
  ]
  | none ↦ elim fail.upstream_model_name [
    | some m ↦ "[model=" <> m <> "] " <> display fail.error
    | none ↦ display fail.error
  ]
]

module _ (auth : AuthContext) (entry : EntryFormat) (body : Json)
    (display : ProxyError → String) where
  unfoldable pub client_model : Option String
  unfolding get_field text_of
  client_model = text_of (get_field "model" body)

  unfoldable pub refused_row : String → ProxyError → LogRow
  unfolding client_model http_status
  refused_row name e = record {
    client_ip = auth.client_ip;
    path = path_of entry;
    client_model = client_model;
    normalized_model = name;
    channel_name = none;
    key_label = none;
    attempted_keys = none;
    upstream_status = none;
    upstream_model = none;
    response_status = http_status e;
    stream = false;
    error_message = some (display e);
    user_id = auth.user.id;
    token_id = auth.token.id;
    quota_cost = pos 0;
  }

  unfoldable pub failed_row : String → Bool → ExecutionFailure → LogRow
  unfolding client_model http_status attempted_csv failure_message
  failed_row name stream fail = record {
    client_ip = auth.client_ip;
    path = path_of entry;
    client_model = client_model;
    normalized_model = name;
    channel_name = fail.channel_name;
    key_label = fail.key_label;
    attempted_keys = attempted_csv fail.attempted_keys;
    upstream_status = fail.upstream_status;
    upstream_model = fail.upstream_model_name;
    response_status = http_status fail.error;
    stream = stream;
    error_message = some (failure_message display fail);
    user_id = auth.user.id;
    token_id = auth.token.id;
    quota_cost = pos 0;
  }

  unfoldable pub success_row : String → ExecutionResult → LogRow
  unfolding client_model attempted_csv
  success_row name result = record {
    client_ip = auth.client_ip;
    path = path_of entry;
    client_model = client_model;
    normalized_model = name;
    channel_name = some result.channel_name;
    key_label = result.key_label;
    attempted_keys = attempted_csv result.attempted_keys;
    upstream_status = result.upstream_status;
    upstream_model = some result.upstream_model_name;
    response_status = 200;
    stream = false;
    error_message = none;
    user_id = auth.user.id;
    token_id = auth.token.id;
    quota_cost = result.quota_cost;
  }

  unfoldable pub not_allowed : String → ProxyError
  not_allowed name = invalid_request ("model '" <> name <> "' is not allowed for this token")

  -- `send_stream` is the sending of a request that is streamed.
  module _ {S W A : Type 0} (g : Setting) (o : Outside S W Answer)
      (send_stream : ℕ → RoutedKey → Json → Reply A) where
    abbrev pub os : Outside S W A
    os = record {
      repo = o.repo;
      writer = o.writer;
      translators = o.translators;
      send = send_stream;
      clock = o.clock;
      timeout = o.timeout;
      display = o.display;
      lower = o.lower;
    }

    abbrev pub Step : Type 0
    Step = Outcome A × Gateway S W

    abbrev pub log : LogRow → Gateway S W → Gateway S W
    log row gw = record gw { logged = gw.logged ++ row ∷ [] }

    abbrev pub context_of : RowId → String → ExecutionContext
    context_of model_id name = record {
      user_id = auth.user.id;
      token_id = auth.token.id;
      user_group = auth.user.group;
      model_id = model_id;
      canonical_name = name;
    }

    -- What `execute` answered.
    unfoldable pub answer : String → Result ExecutionResult × World S W → Gateway S W → Step
    unfolding success_row failed_row
    answer name (success r, w) gw =
        (responds r.body, log (success_row name r) record gw { world = w })
    answer name (failure f, w) gw =
        (fails f.error, log (failed_row name false f) record gw { world = w })
    answer name (panics, w) gw = (crashes, record gw { world = w })

    -- What `execute_stream` answered. The row of a stream that starts is written at its end.
    unfoldable pub answer_stream :
        String → Result (StreamBootstrap A) × World S W → Gateway S W → Step
    unfolding failed_row
    answer_stream name (success boot, w) gw = (streams boot, record gw { world = w })
    answer_stream name (failure f, w) gw =
        (fails f.error, log (failed_row name true f) record gw { world = w })
    answer_stream name (panics, w) gw = (crashes, record gw { world = w })

    unfoldable pub proxy_allowed : RowId → String → Gateway S W → Step
    unfolding answer answer_stream wants_stream execute execute_stream
    proxy_allowed model_id name gw =
        let ctx = context_of model_id name in
        if wants_stream body
        then answer_stream name (execute_stream g os ctx entry body gw.world) gw
        else answer name (execute g o ctx entry body gw.world) gw

    -- What the normalizer answered.
    unfoldable pub proxy_resolved : String → Option (RowId × String) → Gateway S W → Step
    unfolding allows_model not_allowed refused_row proxy_allowed
    proxy_resolved model_name none gw = (fails (model_not_found model_name), gw)
    proxy_resolved model_name (some (model_id, name)) gw =
        if not (allows_model auth.token name)
        then (fails (not_allowed name), log (refused_row name (not_allowed name)) gw)
        else proxy_allowed model_id name gw

    -- What loading the cache answered.
    unfoldable pub proxy_loaded : String → Option ProxyError → Gateway S W → Step
    unfolding proxy_resolved resolve
    proxy_loaded model_name (some e) gw = (fails e, gw)
    proxy_loaded model_name none gw =
        proxy_resolved model_name (resolve o.lower model_name gw.world.cache.normalizer) gw

    abbrev pub error_of : {B : Type 0} → ProxyResult B → Option ProxyError
    error_of (ok b) = none
    error_of (err e) = some e

    unfoldable pub proxy_named : Option String → Gateway S W → Step
    unfolding proxy_loaded load
    proxy_named none gw = (fails (invalid_request "missing 'model' field"), gw)
    proxy_named (some model_name) gw =
        let (r, c) = load o.lower g.loader gw.world.cache in
        proxy_loaded model_name (error_of r) record gw { world = record gw.world { cache = c } }

    unfoldable pub proxy_request : Gateway S W → Step
    unfolding proxy_named client_model
    proxy_request gw = proxy_named client_model gw
