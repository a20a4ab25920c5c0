-- ===== src/Translator/Responses.antt =====
-- crates/translator/src/o2c.rs, `claude_to_openai_response`, and c2o.rs,
-- `openai_to_claude_response`.
use chenni_x_api.Prelude.Tests.{if◌then◌else◌}
use chenni_x_api.Prelude.{ℕ, ◌+◌, ◌%◌, String, str_eq, Option, none, some, ◌⊎◌, List, [], ◌∷◌, ◌++◌}
use chenni_x_api.Common.Text.{is_blank}
use chenni_x_api.Common.Results.{ProxyResult, ok}
use chenni_x_api.Json.{
  Json, null, integer, string, array, object, Items, no_items, item, no_members, member, get_field,
  field_of, text_of, count_at,
}
use chenni_x_api.Stream.Chunks.{items_of, first_choice}
use chenni_x_api.Stream.ToClaude.{reasoning_of}
use chenni_x_api.Executor.Bodies.{Translators}
use chenni_x_api.Translator.Parts.{
  field_or, empty_text, to_items, map_items, has_type, to_list, texts_of, concat, text_block,
  optional, tool_use_block,
}
use chenni_x_api.Translator.ToClaude.{some_array, openai_to_claude_request}
use chenni_x_api.Translator.ToOpenai.{tool_calls_of, claude_to_openai_request}

-- The texts of the blocks of type thinking.
unfoldable pub thoughts_of : Items → List String
unfolding has_type get_field text_of
thoughts_of no_items = []
thoughts_of (item b bs) =
    if has_type "thinking" b
    then to_list (text_of (get_field "thinking" b)) ++ thoughts_of bs
    else thoughts_of bs

unfoldable pub finish_of : Option String → String
finish_of none = "stop"
finish_of (some sr) =
    if str_eq sr "tool_use"
    then "tool_calls"
    else if str_eq sr "max_tokens"
    then "length"
    else "stop"

-- A member that is left out where the text is empty.
unfoldable pub some_string : String → Option Json
unfolding is_blank
some_string t = if is_blank t then none else some (string t)

-- The sum of `u64` wraps, as in a release build.
unfoldable pub openai_usage : Option Json → Json
unfolding count_at
openai_usage u = object (
    member "prompt_tokens" (integer (count_at "input_tokens" u)) (
      member "completion_tokens" (integer (count_at "output_tokens" u)) (
        member "total_tokens"
          (integer
            ((count_at "input_tokens" u + count_at "output_tokens" u) % 18_446_744_073_709_551_616))
          no_members)))

unfoldable pub stop_of : Option String → String
stop_of none = "end_turn"
stop_of (some fr) =
    if str_eq fr "tool_calls"
    then "tool_use"
    else if str_eq fr "length"
    then "max_tokens"
    else "end_turn"

unfoldable pub claude_usage : Option Json → Json
unfolding count_at
claude_usage u = object (
    member "input_tokens" (integer (count_at "prompt_tokens" u))
      (member "output_tokens" (integer (count_at "completion_tokens" u)) no_members))

thinking_block : String → Json
thinking_block t =
    object (member "type" (string "thinking") (member "thinking" (string t) no_members))

-- A block of a text that is there and not empty.
abbrev pub block_if : (String → Json) → Option String → List Json
unfolding is_blank
block_if make none = []
block_if make (some t) = if is_blank t then [] else make t ∷ []

-- The code wants at least one block.
unfoldable pub some_block : List Json → List Json
some_block [] = text_block "" ∷ []
some_block (b ∷ bs) = b ∷ bs

module _ (from_str : String → String ⊎ Json) where
  unfoldable pub message_blocks : Option Json → List Json
  unfolding reasoning_of thinking_block tool_use_block get_field text_of
  message_blocks none = []
  message_blocks (some message) =
      block_if thinking_block (reasoning_of message)
      ++ block_if text_block (text_of (get_field "content" message))
      ++ map_items (tool_use_block from_str) (items_of (get_field "tool_calls" message))

  unfoldable pub openai_to_claude_response : Json → ProxyResult Json
  unfolding message_blocks some_block stop_of claude_usage field_or first_choice get_field field_of
      text_of
  openai_to_claude_response body =
      let choice = first_choice (get_field "choices" body) in
      ok (
        object (
          member "id" (field_or "id" empty_text body) (
            member "type" (string "message") (
              member "role" (string "assistant") (
                member "model" (field_or "model" empty_text body) (
                  member "content"
                    (array (to_items (some_block (message_blocks (field_of "message" choice)))))
                    (member "stop_reason"
                      (string (stop_of (text_of (field_of "finish_reason" choice))))
                      (member "stop_sequence" null
                        (member "usage" (claude_usage (get_field "usage" body)) no_members)))))))))

-- `now` is the time in seconds.
module _ (to_text : Json → String) (now : ℕ) where
  unfoldable pub openai_message : Items → Json
  unfolding some_string thoughts_of texts_of tool_calls_of
  openai_message blocks = object (
      member "role" (string "assistant") (
        member "content" (string (concat (texts_of blocks))) (
          optional "reasoning_content" (some_string (concat (thoughts_of blocks)))
            (optional "tool_calls" (some_array (tool_calls_of to_text blocks)) no_members))))

  unfoldable pub claude_to_openai_response : Json → ProxyResult Json
  unfolding openai_message finish_of openai_usage field_or get_field text_of
  claude_to_openai_response body =
      let choice = member "index" (integer 0) (
        member "message" (openai_message (items_of (get_field "content" body))) (
          member "finish_reason" (string (finish_of (text_of (get_field "stop_reason" body))))
            no_members)) in
      ok (
        object (
          member "id" (field_or "id" empty_text body) (
            member "object" (string "chat.completion") (
              member "created" (integer now) (
                member "model" (field_or "model" empty_text body) (
                  member "choices" (array (item (object choice) no_items))
                    (member "usage" (openai_usage (get_field "usage" body)) no_members)))))))

-- The translators of the executor.
module _ (from_str : String → String ⊎ Json) (to_text : Json → String) (now : ℕ) where
  unfoldable pub translators : Translators
  unfolding openai_to_claude_request claude_to_openai_request claude_to_openai_response
      openai_to_claude_response
  translators = record {
    openai_to_claude_request = openai_to_claude_request from_str to_text;
    claude_to_openai_request = claude_to_openai_request to_text;
    claude_to_openai_response = claude_to_openai_response to_text now;
    openai_to_claude_response = openai_to_claude_response from_str;
  }
