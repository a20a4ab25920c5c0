-- ===== src/Translator/ToClaude.antt =====
-- crates/translator/src/o2c.rs, `openai_to_claude_request`.
use chenni_x_api.Prelude.Tests.{if◌then◌else◌}
use chenni_x_api.Prelude.{
  ℕ, String, str_eq, ◌<>◌, Bool, not, Option, none, some, ◌⊎◌, List, [], ◌∷◌, ◌++◌, map,
}
use chenni_x_api.Common.Text.{is_blank}
use chenni_x_api.Common.Results.{ProxyResult, ok}
use chenni_x_api.Json.{
  Json, null, bool, integer, string, array, object, Items, no_items, item, Members, no_members,
  member, get_field, field_of, text_of, as_u64,
}
use chenni_x_api.Stream.Chunks.{items_of}
use chenni_x_api.Translator.Parts.{
  field_or, empty_object, empty_text, as_bool, to_items, map_items, has_type, texts_of, text_block,
  optional, some_text, tool_use_block,
}

-- A role and its content blocks.
abbrev pub Turn : Type 0
Turn = String × List Json

unfoldable pub system_texts_of : Option Json → List String
unfolding is_blank texts_of
system_texts_of (some (string s)) = if is_blank s then [] else s ∷ []
system_texts_of (some (array parts)) = texts_of parts
system_texts_of _ = []

tool_content : Option Json → Json
tool_content none = empty_text
tool_content (some null) = empty_text
tool_content (some v) = v

unfoldable pub tool_turn : Json → Turn
unfolding field_or get_field tool_content
tool_turn msg = (
  "user",
  object (
        member "type" (string "tool_result") (
          member "tool_use_id" (field_or "tool_call_id" empty_text msg)
            (member "content" (tool_content (get_field "content" msg)) no_members)))
      ∷ [],
)

-- A part of another type, such as an image, stays as it is.
unfoldable pub part_block : Json → Json
unfolding has_type field_or
part_block part =
    if has_type "text" part
    then object
        (member "type" (string "text") (member "text" (field_or "text" empty_text part) no_members))
    else part

unfoldable pub content_blocks : Option Json → List Json
unfolding is_blank part_block
content_blocks (some (string s)) = if is_blank s then [] else text_block s ∷ []
content_blocks (some (array parts)) = map_items part_block parts
content_blocks _ = []

-- A turn joins the last one where the roles agree.
unfoldable pub push_turn : List Turn → Turn → List Turn
push_turn [] t = t ∷ []
push_turn (u ∷ []) t = if str_eq u.0 t.0 then (u.0, u.1 ++ t.1) ∷ [] else u ∷ t ∷ []
push_turn (u ∷ v ∷ us) t = u ∷ push_turn (v ∷ us) t

-- Onto the turns that are merged already.
unfoldable pub merge_turns : List Turn → List Turn → List Turn
unfolding push_turn
merge_turns merged [] = merged
merge_turns merged (t ∷ ts) = merge_turns (push_turn merged t) ts

abbrev pub placeholder : Turn
placeholder = ("user", text_block "." ∷ [])

unfoldable pub lead_with_user : List Turn → List Turn
lead_with_user [] = placeholder ∷ []
lead_with_user (t ∷ ts) = if str_eq t.0 "user" then t ∷ ts else placeholder ∷ t ∷ ts

abbrev pub turn_message : Turn → Json
turn_message t =
    object (member "role" (string t.0) (member "content" (array (to_items t.1)) no_members))

unfoldable pub claude_tool : Json → List Json
unfolding field_or get_field
claude_tool tool = elim (get_field "function" tool) [
  | none ↦ []
  | some func ↦
      object (
        member "name" (field_or "name" empty_text func) (
          optional "description" (get_field "description" func)
            (member "input_schema" (field_or "parameters" empty_object func) no_members)))
      ∷ []
]

unfoldable pub claude_tools : Items → List Json
unfolding claude_tool
claude_tools no_items = []
claude_tools (item tool tools) = claude_tool tool ++ claude_tools tools

-- An array that is left out where it is empty.
abbrev pub some_array : List Json → Option Json
some_array [] = none
some_array (v ∷ vs) = some (array (to_items (v ∷ vs)))

abbrev pub inverted : Option Bool → Option Json
inverted none = none
inverted (some b) = some (bool (not b))

unfoldable pub max_tokens_of : Option Json → ℕ
unfolding as_u64
max_tokens_of none = 4096
max_tokens_of (some v) = elim (as_u64 v) [ none ↦ 4096 | some n ↦ n ]

unfoldable pub budget_of : String → ℕ
budget_of effort =
    if str_eq effort "low"
    then 1280
    else if str_eq effort "medium"
    then 2048
    else if str_eq effort "high"
    then 4096
    else 2048

unfoldable pub thinking_of : Option String → Option Json
unfolding budget_of
thinking_of none = none
thinking_of (some effort) = some (
    object (
      member "type" (string "enabled")
        (member "budget_tokens" (integer (budget_of effort)) no_members)))

abbrev pub json_instruction : String
json_instruction = "Please respond with a valid JSON object."

-- `from_str` and `to_text` are serde_json's reading and writing.
module _ (from_str : String → String ⊎ Json) (to_text : Json → String) where
  unfoldable pub plain_turn : String → Json → Turn
  unfolding content_blocks tool_use_block get_field
  plain_turn role msg = (
    role,
    content_blocks (get_field "content" msg)
        ++ map_items (tool_use_block from_str) (items_of (get_field "tool_calls" msg)),
  )

  unfoldable pub role_of : Json → String
  unfolding get_field text_of
  role_of msg = some_text (text_of (get_field "role" msg)) "user"

  -- What a message adds to the system texts, and to the turns.
  unfoldable pub walk_message : Json → List String × List Turn
  unfolding role_of system_texts_of tool_turn plain_turn get_field
  walk_message msg =
      if str_eq (role_of msg) "system"
      then (system_texts_of (get_field "content" msg), [])
      else if str_eq (role_of msg) "tool"
      then ([], tool_turn msg ∷ [])
      else ([], plain_turn (role_of msg) msg ∷ [])

  unfoldable pub walk : Items → List String × List Turn
  unfolding walk_message
  walk no_items = ([], [])
  walk (item msg msgs) =
      let (texts, turns) = walk_message msg in
      let (later_texts, later) = walk msgs in (texts ++ later_texts, turns ++ later)

  unfoldable pub schema_instruction : Option Json → String
  schema_instruction none = json_instruction
  schema_instruction (some schema) =
      "Please respond with a JSON object matching this schema: " <> to_text schema

  unfoldable pub format_instruction : Option Json → List String
  unfolding has_type schema_instruction get_field field_of
  format_instruction none = []
  format_instruction (some rf) =
      if has_type "json_object" rf
      then json_instruction ∷ []
      else if has_type "json_schema" rf
      then schema_instruction (field_of "schema" (get_field "json_schema" rf)) ∷ []
      else []

  unfoldable pub claude_turns : Json → List Turn
  unfolding walk merge_turns lead_with_user get_field
  claude_turns body =
      lead_with_user (merge_turns [] (walk (items_of (get_field "messages" body))).1)

  unfoldable pub claude_system : Json → List String
  unfolding walk format_instruction get_field
  claude_system body =
      (walk (items_of (get_field "messages" body))).0
      ++ format_instruction (get_field "response_format" body)

  -- The members after the messages, in the code's order.
  unfoldable pub claude_options : Json → Members
  unfolding claude_system max_tokens_of claude_tools thinking_of get_field text_of
  claude_options body = optional "system" (some_array (map text_block (claude_system body))) (
      member "max_tokens" (integer (max_tokens_of (get_field "max_tokens" body))) (
        optional "temperature" (get_field "temperature" body) (
          optional "top_p" (get_field "top_p" body) (
            optional "tools" (some_array (claude_tools (items_of (get_field "tools" body)))) (
              optional "disable_parallel_tool_use"
                (inverted (as_bool (get_field "parallel_tool_calls" body)))
                (optional "thinking" (thinking_of (text_of (get_field "reasoning_effort" body)))
                  no_members))))))

  unfoldable pub openai_to_claude_request : Json → ProxyResult Json
  unfolding claude_turns claude_options get_field
  openai_to_claude_request body = ok (
      object (
        optional "model" (get_field "model" body) (
          member "messages" (array (to_items (map turn_message (claude_turns body))))
            (claude_options body))))
