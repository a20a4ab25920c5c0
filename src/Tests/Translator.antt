-- ===== src/Tests/Translator.antt =====
-- Requests and responses through crates/translator, as in the tests of o2c.rs and c2o.rs.
use chenni_x_api.Prelude.{false, ◌≡◌, refl, String, ◌⊎◌, inr, some, List, [], ◌∷◌, ◌++◌}
use chenni_x_api.Common.Results.{ProxyResult, ok, err}
use chenni_x_api.Json.{
  Json, bool, string, array, object, no_items, item, no_members, member, get_field, text_of,
}
use chenni_x_api.Translator.Parts.{empty_object}
use chenni_x_api.Translator.ToClaude.{openai_to_claude_request, walk, claude_turns, merge_turns}
use chenni_x_api.Translator.Responses.{openai_to_claude_response, claude_to_openai_response}
use chenni_x_api.Translator.Requests.{
  KeepsToTurns, request-KeepsToTurns, claude_turns-blocks, blocks_in, filler, messages_in, roles_in,
}
use chenni_x_api.Translator.Answers.{Answer, kept, answer_json, and_then}
use chenni_x_api.Translator.RoundTrip.{response_round_trip}
use chenni_x_api.Translator.Options.{
  field_in, there_and_back, kept_bool, kept_max_tokens, kept_effort, options_round_trip,
}

abbrev reads : String → String ⊎ Json
reads _ = inr empty_object

abbrev prints : Json → String
prints _ = "{}"

abbrev says : String → String → Json
says role content =
    object (member "role" (string role) (member "content" (string content) no_members))

-- Two messages of the assistant's behind the system's, and two of the user's.
abbrev body : Json
body = object (
    member "model" (string "gpt-4o") (
      member "messages"
        (array (
          item (says "system" "be kind") (
            item (says "assistant" "a") (
              item (says "assistant" "b")
                (item (says "user" "c") (item (says "tool" "d") no_items))))))
        (member "reasoning_effort" (string "high")
          (member "parallel_tool_calls" (bool false) no_members))))

abbrev roles_or_none : ProxyResult Json → List String
roles_or_none (err e) = []
roles_or_none (ok v) = roles_in (messages_in v)

roles_of_body :
    roles_or_none (openai_to_claude_request reads prints body) ≡ "user" ∷ "assistant" ∷ "user" ∷ []
unfolding openai_to_claude_request get_field text_of
roles_of_body = refl

request-KeepsToTurns_example : KeepsToTurns (openai_to_claude_request reads prints body)
request-KeepsToTurns_example = request-KeepsToTurns reads prints body

claude_turns-blocks_example :
    blocks_in (claude_turns reads prints body)
    ≡ filler (merge_turns [] (walk reads prints (messages_in body)).1)
      ++ blocks_in (walk reads prints (messages_in body)).1
claude_turns-blocks_example = claude_turns-blocks reads prints body

abbrev answer : Answer
answer = record {
  id = string "x";
  model = string "m";
  content = some "hello";
  reasoning = "why";
  calls = record { id = string "t1"; name = string "sum"; input = empty_object } ∷ [];
  finish = some "content_filter";
  prompt_tokens = 3;
  completion_tokens = 4;
}

response_round_trip_example :
    and_then
      (openai_to_claude_response reads (answer_json prints 1 answer))
      (claude_to_openai_response prints 2)
    ≡ ok (answer_json prints 2 (kept answer))
response_round_trip_example = response_round_trip reads prints 1 2 answer (refl, tt)

options_round_trip_example :
    (field_in "model" (there_and_back reads prints body) ≡ get_field "model" body)
    × (field_in "temperature" (there_and_back reads prints body) ≡ get_field "temperature" body)
    × (field_in "top_p" (there_and_back reads prints body) ≡ get_field "top_p" body)
    × (field_in "max_tokens" (there_and_back reads prints body)
        ≡ kept_max_tokens (get_field "max_tokens" body))
    × (field_in "parallel_tool_calls" (there_and_back reads prints body)
        ≡ kept_bool (get_field "parallel_tool_calls" body))
    × (field_in "reasoning_effort" (there_and_back reads prints body)
        ≡ kept_effort (text_of (get_field "reasoning_effort" body)))
options_round_trip_example = options_round_trip reads prints body
