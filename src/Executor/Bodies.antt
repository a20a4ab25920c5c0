-- ===== src/Executor/Bodies.antt =====
-- crates/core/src/executor.rs: the bodies of requests and responses. The translators of
-- crates/translator are an interface here.
use chenni_x_api.Prelude.Tests.{ltb, if◌then◌else◌}
use chenni_x_api.Prelude.{ℕ, ◌+◌, ◌%◌, String, Option, none, some}
use chenni_x_api.Common.Types.{Usage, ChannelConfig, ChannelProvider, openai_compatible, anthropic}
use chenni_x_api.Common.Results.{ProxyResult, ok, err}
use chenni_x_api.Json.{Json, string, object, get_field, as_u64, put_member, count_at}
use chenni_x_api.Executor.{EntryFormat, openai, claude}

pub record Translators : Type 0 where
  pub openai_to_claude_request : Json → ProxyResult Json
  pub claude_to_openai_request : Json → ProxyResult Json
  pub claude_to_openai_response : Json → ProxyResult Json
  pub openai_to_claude_response : Json → ProxyResult Json

max_tokens_value : Json → EntryFormat → Option Json
unfolding get_field
max_tokens_value body openai = elim (get_field "max_completion_tokens" body) [
  | some v ↦ some v
  | none ↦ get_field "max_tokens" body
]
max_tokens_value body claude = get_field "max_tokens" body

unfoldable pub extract_max_tokens : Json → EntryFormat → Option ℕ
unfolding max_tokens_value as_u64
extract_max_tokens body entry = elim (max_tokens_value body entry) [
  | none ↦ none
  | some val ↦ elim (as_u64 val) [ none ↦ none | some n ↦ if ltb 0 n then some n else none ]
]

abbrev pub u64_mod : ℕ
u64_mod = 18_446_744_073_709_551_616

-- The sum of the two counts wraps, as in a release build.
unfoldable pub extract_usage_from_response : Json → ChannelProvider → Usage
unfolding get_field count_at
extract_usage_from_response body openai_compatible =
    let u = get_field "usage" body in
    record {
      prompt_tokens = count_at "prompt_tokens" u;
      completion_tokens = count_at "completion_tokens" u;
      total_tokens = count_at "total_tokens" u;
    }
extract_usage_from_response body anthropic =
    let u = get_field "usage" body in
    let input = count_at "input_tokens" u in
    let output = count_at "output_tokens" u in
    record {
      prompt_tokens = input;
      completion_tokens = output;
      total_tokens = (input + output) % u64_mod;
    }

unfoldable pub swap_model : Json → String → Json
unfolding put_member
swap_model (object ms) upstream_model_name =
    object (put_member "model" (string upstream_model_name) ms)
swap_model body _ = body

module _ (t : Translators) where
  translate_request : EntryFormat → ChannelProvider → Json → ProxyResult Json
  translate_request openai openai_compatible body = ok body
  translate_request claude anthropic body = ok body
  translate_request openai anthropic body = t.openai_to_claude_request body
  translate_request claude openai_compatible body = t.claude_to_openai_request body

  unfoldable pub prepare_request :
      EntryFormat → Json → ChannelConfig → String → ProxyResult (Json × ChannelProvider)
  unfolding translate_request swap_model
  prepare_request entry body channel upstream_model_name =
      elim (translate_request entry channel.provider body) [
        | err e ↦ err e
        | ok out ↦ ok (swap_model out upstream_model_name, channel.provider)
      ]

  unfoldable pub translate_response_back : EntryFormat → ChannelProvider → Json → ProxyResult Json
  translate_response_back openai openai_compatible body = ok body
  translate_response_back claude anthropic body = ok body
  translate_response_back openai anthropic body = t.claude_to_openai_response body
  translate_response_back claude openai_compatible body = t.openai_to_claude_response body
