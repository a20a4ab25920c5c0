-- ===== src/Translator/Options.antt =====
-- crates/translator/src/o2c.rs and c2o.rs: the options of an OpenAI request to Claude's format and
-- back.
use chenni_x_api.Prelude.{
  ◌≡◌, refl, ap, ◌⊎◌, str_eq, true, false, arith, String, Option, none, some,
}
use chenni_x_api.Prelude.Tests.{if◌then◌else◌}
use text.Mathlib.TextEquality.{eq_iff}
use chenni_x_api.Common.Results.{ProxyResult, ok, err}
use chenni_x_api.Json.{
  Json, null, bool, integer, negative, other_number, string, array, object, get_field, field_of,
  text_of, as_u64,
}
use chenni_x_api.Translator.Parts.{as_bool}
use chenni_x_api.Translator.ToClaude.{
  max_tokens_of, thinking_of, budget_of, inverted, claude_options, openai_to_claude_request,
}
use chenni_x_api.Translator.ToOpenai.{
  effort_of, effort_member, openai_options, claude_to_openai_request,
}
use chenni_x_api.Translator.Requests.{find-optional, choose_member}
use chenni_x_api.Translator.Answers.{and_then}

-- A field of a result.
abbrev pub field_in : String → ProxyResult Json → Option Json
unfolding get_field
field_in name (err e) = none
field_in name (ok v) = get_field name v

choose_none : (o : Option Json) → choose_member true o none ≡ o
choose_none none = refl
choose_none (some v) = refl

-- A Boolean option comes back as it was, and any other value is dropped.
abbrev pub kept_bool : Option Json → Option Json
kept_bool (some (bool b)) = some (bool b)
kept_bool _ = none

inverted_twice : (o : Option Json) → inverted (as_bool (inverted (as_bool o))) ≡ kept_bool o
inverted_twice none = refl
inverted_twice (some null) = refl
inverted_twice (some (bool true)) = refl
inverted_twice (some (bool false)) = refl
inverted_twice (some (integer n)) = refl
inverted_twice (some (negative n)) = refl
inverted_twice (some (other_number s)) = refl
inverted_twice (some (string s)) = refl
inverted_twice (some (array vs)) = refl
inverted_twice (some (object ms)) = refl

-- A `u64` comes back as it was; in place of anything else, or of nothing, stands 4096.
abbrev pub kept_max_tokens : Option Json → Option Json
kept_max_tokens (some (integer n)) = some (integer n)
kept_max_tokens _ = some (integer 4096)

max_tokens_lem : (o : Option Json) → some (integer (max_tokens_of o)) ≡ kept_max_tokens o
unfolding max_tokens_of as_u64
max_tokens_lem none = refl
max_tokens_lem (some null) = refl
max_tokens_lem (some (bool b)) = refl
max_tokens_lem (some (integer n)) = refl
max_tokens_lem (some (negative n)) = refl
max_tokens_lem (some (other_number s)) = refl
max_tokens_lem (some (string s)) = refl
max_tokens_lem (some (array vs)) = refl
max_tokens_lem (some (object ms)) = refl

-- An effort comes back by its level: one that is neither low nor high is medium.
abbrev pub level : String → String
level e = if str_eq e "low" then "low" else if str_eq e "high" then "high" else "medium"

abbrev pub kept_effort : Option String → Option Json
kept_effort none = none
kept_effort (some e) = some (string (level e))

effort_lem :
    (e : Option String) → effort_member (field_of "budget_tokens" (thinking_of e)) ≡ kept_effort e
unfolding effort_member thinking_of budget_of effort_of field_of get_field as_u64
effort_lem none = refl
effort_lem (some e) = ap (λ w. some (string w)) (tested e)
  where
    tested : (e : String) → effort_of (budget_of e) ≡ level e
    tested e = ground (arith, eq_iff e "low", eq_iff e "medium", eq_iff e "high")

module _ (from_str : String → String ⊎ Json) (to_text : Json → String) where
  abbrev pub there_and_back : Json → ProxyResult Json
  there_and_back body =
      and_then (openai_to_claude_request from_str to_text body) (claude_to_openai_request to_text)

  -- An OpenAI request translated to Claude's format and back keeps its model, `temperature`, `top_p`,
  -- a Boolean `parallel_tool_calls` and a `max_tokens` that is a `u64`; any other `max_tokens`, or none,
  -- comes back as 4096; and `reasoning_effort` comes back as low or high where it was that, and as medium where it was any
  -- other text.
  pub options_round_trip :
      (body : Json)
      → (field_in "model" (there_and_back body) ≡ get_field "model" body)
        × (field_in "temperature" (there_and_back body) ≡ get_field "temperature" body)
        × (field_in "top_p" (there_and_back body) ≡ get_field "top_p" body)
        × (field_in "max_tokens" (there_and_back body)
            ≡ kept_max_tokens (get_field "max_tokens" body))
        × (field_in "parallel_tool_calls" (there_and_back body)
            ≡ kept_bool (get_field "parallel_tool_calls" body))
        × (field_in "reasoning_effort" (there_and_back body)
            ≡ kept_effort (text_of (get_field "reasoning_effort" body)))
  unfolding openai_to_claude_request claude_to_openai_request claude_options openai_options
      get_field
  options_round_trip body = (
    simp (find-optional, choose_none),
    simp (find-optional, choose_none),
    simp (find-optional, choose_none),
    simp (find-optional, max_tokens_lem),
    simp (find-optional, choose_none, inverted_twice),
    simp (find-optional, choose_none, effort_lem),
  )
