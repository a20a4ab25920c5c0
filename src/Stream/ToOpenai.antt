-- ===== src/Stream/ToOpenai.antt =====
-- crates/translator/src/stream_state.rs, `ClaudeToOpenaiStreamState`: Claude events into OpenAI
-- chunks. A chunk is what it says, before it is printed as SSE.
use chenni_x_api.Prelude.Int.{ℤ, pos, wrap_i32}
use chenni_x_api.Prelude.Tests.{ltb, if◌then◌else◌}
use chenni_x_api.Prelude.{
  ℕ, suc, ◌+◌, ◌%◌, String, str_eq, Bool, true, false, ◌||◌, Option, none, some, List, [], ◌∷◌,
  ◌++◌,
}
use chenni_x_api.Common.Types.{Usage}
use chenni_x_api.Json.{Json, get_field, field_of, text_of, as_i64, count_at}
use chenni_x_api.Stream.ToClaude.{BlockKind, text, tool_use, or_empty}

-- What a chunk says, by the constructors `make_*`.
pub data Says : Type 0 where
  role : Says
  content reasoning : String → Says
  tool_call_start : ℕ → String → String → Says
  tool_call_args : ℕ → String → Says
  finish : String → Says
  usage : ℕ → ℕ → ℕ → Says

-- A chunk has the id of the message, the time, the model and what it says, or marks the end.
pub data Chunk : Type 0 where
  chunk : String → ℕ → String → Says → Chunk
  done : Chunk

-- The index of a tool call counts up from zero; it is taken without overflow.
pub record OaiState : Type 0 where
  pub started : Bool
  pub current_block_type : Option BlockKind
  pub current_block_index : ℤ
  pub tool_call_index : ℕ
  pub deferred_usage : Option Usage
  pub input_tokens : ℕ
  pub deferred_stop_reason : Option String
  pub deferred_output_tokens : ℕ
  pub current_oai_tool_index : Option ℕ
  pub message_id : String
  pub model : String
  pub created : ℕ

-- At a time in seconds.
unfoldable pub new_at : ℕ → OaiState
new_at now = record {
  started = false;
  current_block_type = none;
  current_block_index = pos 0;
  tool_call_index = 0;
  deferred_usage = none;
  input_tokens = 0;
  deferred_stop_reason = none;
  deferred_output_tokens = 0;
  current_oai_tool_index = none;
  message_id = "";
  model = "";
  created = now;
}

-- A step that pushes chunks.
abbrev pub Pushes : Type 0
Pushes = OaiState × List Chunk

infixl 5 ◌then_push◌
abbrev pub ◌then_push◌ : Pushes → (OaiState → Pushes) → Pushes
(s, cs) then_push f = let (s', more) = f s in (s', cs ++ more)

unfoldable pub say : Says → OaiState → Chunk
say what s = chunk s.message_id s.created s.model what

-- The chunk of the role, where nothing has been said yet.
unfoldable pub say_role : OaiState → Pushes
unfolding say
say_role s = if s.started then (s, []) else (record s { started = true }, say role s ∷ [])

abbrev pub keep_or : Option String → String → String
keep_or none old = old
keep_or (some new) old = new

abbrev pub read_input : Option Json → ℕ → ℕ
unfolding count_at
read_input none old = old
read_input (some u) old = count_at "input_tokens" (some u)

unfoldable pub on_message_start : Option Json → OaiState → OaiState
unfolding get_field text_of
on_message_start none s = s
on_message_start (some msg) s = record s {
  message_id = keep_or (text_of (get_field "id" msg)) s.message_id;
  model = keep_or (text_of (get_field "model" msg)) s.model;
  input_tokens = read_input (get_field "usage" msg) s.input_tokens;
}

-- `and_then(|i| i.as_i64()).unwrap_or(0) as i32`.
unfoldable pub block_index : Option Json → ℤ
unfolding as_i64 wrap_i32
block_index none = pos 0
block_index (some i) = elim (as_i64 i) [ none ↦ pos 0 | some n ↦ wrap_i32 n ]

unfoldable pub open_tool_call : String → String → OaiState → Pushes
unfolding say
open_tool_call id name s = (
  record s {
    current_oai_tool_index = some s.tool_call_index;
    tool_call_index = suc s.tool_call_index;
    current_block_type = some tool_use;
  },
  say (tool_call_start s.tool_call_index id name) s ∷ [],
)

unfoldable pub enter_text : OaiState → Pushes
enter_text s = (record s { current_block_type = some text }, [])

-- By the type of the block.
unfoldable pub on_block_start : String → Option Json → OaiState → Pushes
unfolding say_role enter_text open_tool_call field_of text_of
on_block_start block_type block s =
    if str_eq block_type "text"
    then say_role s then_push enter_text
    else if str_eq block_type "tool_use"
    then say_role s
      then_push open_tool_call (or_empty (text_of (field_of "id" block)))
          (or_empty (text_of (field_of "name" block)))
    else (s, [])

unfoldable pub say_content : String → OaiState → Pushes
unfolding say
say_content t s = (s, say (content t) s ∷ [])

unfoldable pub say_reasoning : Option String → OaiState → Pushes
unfolding say
say_reasoning none s = (s, [])
say_reasoning (some t) s = if str_eq t "" then (s, []) else (s, say (reasoning t) s ∷ [])

unfoldable pub say_args : Option ℕ → String → OaiState → Pushes
unfolding say
say_args none partial s = (s, [])
say_args (some idx) partial s = (s, say (tool_call_args idx partial) s ∷ [])

-- By the type of the delta.
unfoldable pub on_block_delta : String → Option Json → OaiState → Pushes
unfolding say_role say_content say_reasoning say_args field_of text_of
on_block_delta delta_type delta s =
    if str_eq delta_type "text_delta"
    then say_role s then_push say_content (or_empty (text_of (field_of "text" delta)))
    else if str_eq delta_type "thinking_delta"
    then say_role s then_push say_reasoning (text_of (field_of "thinking" delta))
    else if str_eq delta_type "input_json_delta"
    then say_args s.current_oai_tool_index (or_empty (text_of (field_of "partial_json" delta))) s
    else (s, [])

unfoldable pub defer_stop_reason : Option String → OaiState → OaiState
defer_stop_reason none s = s
defer_stop_reason (some sr) s = record s { deferred_stop_reason = some sr }

-- The sum of `u64` wraps, as in a release build.
abbrev pub total : ℕ → ℕ → ℕ
total prompt completion = (prompt + completion) % 18_446_744_073_709_551_616

unfoldable pub defer_usage : Option Json → OaiState → OaiState
unfolding count_at
defer_usage none s = s
defer_usage (some u) s =
    let output = count_at "output_tokens" (some u) in
    record s {
      deferred_output_tokens = output;
      deferred_usage = some record {
        prompt_tokens = s.input_tokens;
        completion_tokens = output;
        total_tokens = total s.input_tokens output;
      };
    }

unfoldable pub finish_reason_of : Option String → String
finish_reason_of none = "stop"
finish_reason_of (some sr) =
    if str_eq sr "tool_use"
    then "tool_calls"
    else if str_eq sr "max_tokens"
    then "length"
    else "stop"

unfoldable pub say_usage : OaiState → List Chunk
unfolding say
say_usage s =
    if ltb 0 s.input_tokens || ltb 0 s.deferred_output_tokens
    then say
        (usage s.input_tokens s.deferred_output_tokens
          (total s.input_tokens s.deferred_output_tokens))
        s
      ∷ []
    else []

unfoldable pub on_message_stop : OaiState → Pushes
unfolding finish_reason_of say_usage say
on_message_stop s =
    (s, say (finish (finish_reason_of s.deferred_stop_reason)) s ∷ say_usage s ++ done ∷ [])
