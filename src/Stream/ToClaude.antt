-- ===== src/Stream/ToClaude.antt =====
-- crates/translator/src/stream_state.rs, `OpenaiToClaudeStreamState`: OpenAI chunks into Claude
-- events. An event is its name and data, before it is printed as SSE.
use chenni_x_api.Prelude.Int.{ℤ, pos, negsuc, eqb_ℤ, wrap_i32}
use chenni_x_api.Prelude.Tests.{if◌then◌else◌}
use chenni_x_api.Prelude.{
  ℕ, suc, String, str_eq, Bool, true, false, not, ◌&&◌, Option, none, some, List, [], ◌∷◌, ◌++◌,
}
use chenni_x_api.Common.Text.{is_blank}
use chenni_x_api.Common.Types.{Usage}
use chenni_x_api.Json.{Json, Items, no_items, item, get_field, field_of, text_of, as_i64}

pub data BlockKind : Type 0 where
  text thinking tool_use : BlockKind

abbrev pub is_kind : BlockKind → Option BlockKind → Bool
is_kind text (some text) = true
is_kind thinking (some thinking) = true
is_kind _ _ = false

-- The events of the constructors `make_*`, with their data.
pub data Event : Type 0 where
  message_start : String → String → Event
  content_block_start : ℕ → BlockKind → String → String → Event
  text_delta thinking_delta input_json_delta : ℕ → String → Event
  content_block_stop : ℕ → Event
  message_delta : String → ℕ → Event
  message_stop : Event

-- The block index counts up from zero; it is taken without overflow.
pub record StreamState : Type 0 where
  pub content_block_index : ℕ
  pub tool_call_index : ℕ
  pub started : Bool
  pub deferred_usage : Option Usage
  pub current_tool_id : Option String
  pub current_block_type : Option BlockKind
  pub current_oai_tool_index : ℤ
  pub message_id : String
  pub model : String
  pub finished : Bool
  pub deferred_stop_reason : Option String
  pub message_stopped : Bool

unfoldable pub new : StreamState
new = record {
  content_block_index = 0;
  tool_call_index = 0;
  started = false;
  deferred_usage = none;
  current_tool_id = none;
  current_block_type = none;
  current_oai_tool_index = negsuc 0;
  message_id = "";
  model = "";
  finished = false;
  deferred_stop_reason = none;
  message_stopped = false;
}

-- A method that pushes events.
abbrev pub Emits : Type 0
Emits = StreamState × List Event

abbrev pub quiet : StreamState → Emits
quiet s = (s, [])

infixl 5 ◌then_emit◌
abbrev pub ◌then_emit◌ : Emits → (StreamState → Emits) → Emits
(s, es) then_emit f = let (s', more) = f s in (s', es ++ more)

unfoldable pub close_current_block : StreamState → Emits
close_current_block s = elim s.current_block_type [
  | none ↦ (s, [])
  | some _ ↦ (
    record s { content_block_index = suc s.content_block_index; current_block_type = none },
    content_block_stop s.content_block_index ∷ [],
  )
]

unfoldable pub open_block : BlockKind → String → String → StreamState → Emits
open_block kind id name s = (
  record s { current_block_type = some kind },
  content_block_start s.content_block_index kind id name ∷ [],
)

-- The current block is of the kind, or it is closed and one of the kind is opened.
unfoldable pub ensure_block : BlockKind → StreamState → Emits
unfolding close_current_block open_block
ensure_block kind s =
    if is_kind kind s.current_block_type
    then (s, [])
    else close_current_block s then_emit open_block kind "" ""

unfoldable pub emit_reasoning : Option String → StreamState → Emits
unfolding ensure_block
emit_reasoning none s = (s, [])
emit_reasoning (some reasoning) s =
    if is_blank reasoning
    then (s, [])
    else ensure_block thinking s then_emit λ s.
        (s, thinking_delta s.content_block_index reasoning ∷ [])

unfoldable pub reasoning_of : Json → Option String
unfolding get_field text_of
reasoning_of delta = elim (text_of (get_field "reasoning_content" delta)) [
  | some r ↦ some r
  | none ↦ text_of (get_field "reasoning" delta)
]

abbrev pub or_empty : Option String → String
or_empty none = ""
or_empty (some s) = s

unfoldable pub tool_index : Json → ℤ
unfolding get_field as_i64 wrap_i32
tool_index tc = elim (get_field "index" tc) [
  | none ↦ pos 0
  | some i ↦ elim (as_i64 i) [ none ↦ pos 0 | some n ↦ wrap_i32 n ]
]

-- A tool call of another index closes the block and opens one for itself.
unfoldable pub switch_tool : ℤ → String → String → StreamState → Emits
unfolding close_current_block open_block
switch_tool index id name s =
    if eqb_ℤ index s.current_oai_tool_index
    then (s, [])
    else close_current_block s then_emit open_block tool_use id name then_emit λ s. (
      record s {
        current_oai_tool_index = index;
        current_tool_id = some id;
        tool_call_index = suc s.tool_call_index;
      },
      [],
    )

unfoldable pub emit_arguments : Option String → StreamState → Emits
emit_arguments none s = (s, [])
emit_arguments (some args) s =
    if is_blank args then (s, []) else (s, input_json_delta s.content_block_index args ∷ [])

unfoldable pub emit_tool_call : Json → StreamState → Emits
unfolding switch_tool emit_arguments tool_index get_field field_of text_of
emit_tool_call tc s =
    switch_tool (tool_index tc) (or_empty (text_of (get_field "id" tc)))
      (or_empty (text_of (field_of "name" (get_field "function" tc)))) s
    then_emit emit_arguments (text_of (field_of "arguments" (get_field "function" tc)))

unfoldable pub emit_tool_calls : Items → StreamState → Emits
unfolding emit_tool_call
emit_tool_calls no_items s = (s, [])
emit_tool_calls (item tc tcs) s = emit_tool_call tc s then_emit emit_tool_calls tcs

unfoldable pub emit_text : Option String → StreamState → Emits
unfolding ensure_block
emit_text none s = (s, [])
emit_text (some content) s =
    if is_blank content
    then (s, [])
    else ensure_block text s then_emit λ s. (s, text_delta s.content_block_index content ∷ [])

unfoldable pub make_message_delta : StreamState → Event
make_message_delta s =
    message_delta (elim s.deferred_stop_reason [ none ↦ "end_turn" | some r ↦ r ])
      (elim s.deferred_usage [ none ↦ 0 | some u ↦ u.completion_tokens ])

unfoldable pub stop_message : StreamState → Emits
unfolding make_message_delta
stop_message s = (record s { message_stopped = true }, make_message_delta s ∷ message_stop ∷ [])

-- Where a finish was seen and nothing has stopped the message yet.
unfoldable pub stop_if_finished : StreamState → Emits
unfolding stop_message
stop_if_finished s = if s.finished && not s.message_stopped then stop_message s else (s, [])

unfoldable pub stop_reason_of : String → String
stop_reason_of fr =
    if str_eq fr "tool_calls"
    then "tool_use"
    else if str_eq fr "length"
    then "max_tokens"
    else "end_turn"

-- The message stops at once if the usage is known, or else with the usage, or at the end.
unfoldable pub note_finish : String → StreamState → Emits
unfolding stop_reason_of stop_message
note_finish fr s =
    let s' = record s { finished = true; deferred_stop_reason = some (stop_reason_of fr) } in
    elim s.deferred_usage [ none ↦ (s', []) | some _ ↦ stop_message s' ]

unfoldable pub emit_finish : Option String → StreamState → Emits
unfolding close_current_block note_finish
emit_finish none s = (s, [])
emit_finish (some fr) s = close_current_block s then_emit note_finish fr
