-- ===== src/Translator/ToOpenai.antt =====
-- crates/translator/src/c2o.rs, `claude_to_openai_request`.
use chenni_x_api.Prelude.Tests.{ltb, if◌then◌else◌}
use chenni_x_api.Prelude.{ℕ, String, Bool, false, ◌||◌, Option, none, some, List, [], ◌∷◌, ◌++◌}
use chenni_x_api.Common.Text.{is_blank}
use chenni_x_api.Common.Results.{ProxyResult, ok}
use chenni_x_api.Json.{
  Json, null, string, array, object, Items, no_items, item, Members, no_members, member, get_field,
  field_of, text_of, as_u64,
}
use chenni_x_api.Stream.Chunks.{items_of}
use chenni_x_api.Translator.Parts.{
  field_or, empty_object, empty_text, as_bool, to_items, has_type, texts_of, concat, text_block,
  optional, some_text, tool_call_of,
}
use chenni_x_api.Translator.ToClaude.{some_array, inverted}

-- A `system` that is neither text nor an array is dropped.
unfoldable pub system_text : Option Json → String
unfolding texts_of
system_text (some (string s)) = s
system_text (some (array blocks)) = concat (texts_of blocks)
system_text _ = ""

unfoldable pub system_message : String → List Json
unfolding is_blank
system_message t =
    if is_blank t
    then []
    else object (member "role" (string "system") (member "content" (string t) no_members)) ∷ []

unfoldable pub blocks_of : Option Json → Items
blocks_of (some (array blocks)) = blocks
blocks_of (some (string s)) = item (text_block s) no_items
blocks_of _ = no_items

unfoldable pub has_tool_result : Items → Bool
unfolding has_type
has_tool_result no_items = false
has_tool_result (item b bs) = has_type "tool_result" b || has_tool_result bs

-- A message that the texts make, where there is one.
unfoldable pub text_message : String → List String → List Json
text_message role [] = []
text_message role (t ∷ ts) =
    object (member "role" (string role) (member "content" (string (concat (t ∷ ts))) no_members))
    ∷ []

content_or_null : String → Json
unfolding is_blank
content_or_null t = if is_blank t then null else string t

-- The content is null where there are tool calls and no text.
unfoldable pub plain_message : String → String → List Json → Json
unfolding content_or_null
plain_message role content [] =
    object (member "role" (string role) (member "content" (string content) no_members))
plain_message role content (c ∷ cs) = object (
    member "role" (string role) (
      member "content" (content_or_null content)
        (member "tool_calls" (array (to_items (c ∷ cs))) no_members)))

unfoldable pub openai_tool : Json → Json
unfolding field_or get_field
openai_tool tool = object (
    member "type" (string "function") (
      member "function"
        (object (
          member "name" (field_or "name" empty_text tool) (
            optional "description" (get_field "description" tool)
              (member "parameters" (field_or "input_schema" empty_object tool) no_members))))
        no_members))

unfoldable pub openai_tools : Items → List Json
unfolding openai_tool
openai_tools no_items = []
openai_tools (item tool tools) = openai_tool tool ∷ openai_tools tools

unfoldable pub effort_of : ℕ → String
effort_of budget = if ltb budget 1700 then "low" else if ltb budget 3000 then "medium" else "high"

unfoldable pub effort_member : Option Json → Option Json
unfolding effort_of as_u64
effort_member none = none
effort_member (some v) = elim (as_u64 v) [ none ↦ none | some n ↦ some (string (effort_of n)) ]

-- `to_text` is serde_json's writing.
module _ (to_text : Json → String) where
  unfoldable pub result_text : Option Json → String
  unfolding texts_of
  result_text none = ""
  result_text (some (string s)) = s
  result_text (some (array parts)) = concat (texts_of parts)
  result_text (some other) = to_text other

  unfoldable pub tool_message : Json → Json
  unfolding field_or result_text get_field
  tool_message block = object (
      member "role" (string "tool") (
        member "tool_call_id" (field_or "tool_use_id" empty_text block)
          (member "content" (string (result_text (get_field "content" block))) no_members)))

  unfoldable pub tool_messages : Items → List Json
  unfolding has_type tool_message
  tool_messages no_items = []
  tool_messages (item b bs) =
      if has_type "tool_result" b then tool_message b ∷ tool_messages bs else tool_messages bs

  unfoldable pub tool_calls_of : Items → List Json
  unfolding has_type tool_call_of
  tool_calls_of no_items = []
  tool_calls_of (item b bs) =
      if has_type "tool_use" b then tool_call_of to_text b ∷ tool_calls_of bs else tool_calls_of bs

  -- With a tool result, each is a message, and the texts are one message after them.
  unfoldable pub convert_blocks : String → Items → List Json
  unfolding has_tool_result tool_messages text_message texts_of plain_message tool_calls_of
  convert_blocks role blocks =
      if has_tool_result blocks
      then tool_messages blocks ++ text_message role (texts_of blocks)
      else plain_message role (concat (texts_of blocks)) (tool_calls_of blocks) ∷ []

  unfoldable pub convert_message : Json → List Json
  unfolding convert_blocks blocks_of get_field text_of
  convert_message msg =
      convert_blocks (some_text (text_of (get_field "role" msg)) "user")
        (blocks_of (get_field "content" msg))

  unfoldable pub convert_messages : Items → List Json
  unfolding convert_message
  convert_messages no_items = []
  convert_messages (item msg msgs) = convert_message msg ++ convert_messages msgs

  unfoldable pub openai_messages : Json → List Json
  unfolding system_message system_text convert_messages get_field
  openai_messages body =
      system_message (system_text (get_field "system" body))
      ++ convert_messages (items_of (get_field "messages" body))

  -- The members after the messages, in the code's order.
  unfoldable pub openai_options : Json → Members
  unfolding openai_tools effort_member get_field field_of
  openai_options body = optional "max_tokens" (get_field "max_tokens" body) (
      optional "temperature" (get_field "temperature" body) (
        optional "top_p" (get_field "top_p" body) (
          optional "stream" (get_field "stream" body) (
            optional "tools" (some_array (openai_tools (items_of (get_field "tools" body)))) (
              optional "parallel_tool_calls"
                (inverted (as_bool (get_field "disable_parallel_tool_use" body)))
                (optional "reasoning_effort"
                  (effort_member (field_of "budget_tokens" (get_field "thinking" body)))
                  no_members))))))

  unfoldable pub claude_to_openai_request : Json → ProxyResult Json
  unfolding openai_messages openai_options get_field
  claude_to_openai_request body = ok (
      object (
        optional "model" (get_field "model" body)
          (member "messages" (array (to_items (openai_messages body))) (openai_options body))))
