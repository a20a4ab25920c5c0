-- ===== src/Tests/Stream.antt =====
-- Chunks of a stream, as in the tests of crates/translator/src/stream_state.rs.
use chenni_x_api.Prelude.Tests.{if◌then◌else◌}
use chenni_x_api.Prelude.{◌≡◌, refl, String, str_eq, ◌⊎◌, inr, false, some, List, [], ◌∷◌}
use chenni_x_api.Common.Text.{is_blank}
use chenni_x_api.Json.{
  Json, integer, string, array, object, no_items, item, Members, no_members, member,
}
use chenni_x_api.Stream.ToClaude.{
  new, ◌then_emit◌, text, tool_use, message_start, content_block_start, text_delta,
  input_json_delta, content_block_stop, message_delta, message_stop,
}
use chenni_x_api.Stream.Chunks.{process_json, process_chunk}
use chenni_x_api.Stream.Protocol.{Accepted, process_chunk-Accepted}
use chenni_x_api.Stream.ToOpenai
use chenni_x_api.Stream.ToOpenai.{role, tool_call_start, tool_call_args, done, new_at}
use chenni_x_api.Stream.Events.{process_event}
use chenni_x_api.Stream.Roles.{hear_all, heard_of}
use chenni_x_api.Stream.Heard.{translated, translated-heard}

-- A chunk with one choice.
abbrev chunk : Members → Members → Json
chunk delta rest = object (
    member "choices" (array (item (object (member "delta" (object delta) rest)) no_items))
      no_members)

abbrev say : String → Json
say s = chunk (member "content" (string s) no_members) no_members

-- A fragment of the arguments of the first tool call.
abbrev call_tool : String → Json
call_tool args =
    chunk
      (member "tool_calls"
        (array (
          item
            (object (
              member "index" (integer 0) (
                member "function" (object (member "arguments" (string args) no_members))
                  no_members)))
            no_items))
        no_members)
      no_members

abbrev finish : Json
finish = chunk no_members (member "finish_reason" (string "stop") no_members)

abbrev usage_only : Json
usage_only =
    object (member "usage" (object (member "completion_tokens" (integer 5) no_members)) no_members)

-- Text, the end, and then the usage.
hello :
    (process_json (say "hi") new then_emit process_json finish then_emit process_json usage_only).1
    ≡ message_start "" ""
      ∷ content_block_start 0 text "" ""
      ∷ text_delta 0 "hi"
      ∷ content_block_stop 0
      ∷ message_delta "end_turn" 5
      ∷ message_stop
      ∷ []
unfolding process_json new is_blank
hello = refl

-- Text between two fragments of one tool call: the second fragment goes into the text block.
fragment_in_text_block :
    (process_json (call_tool "{") new
      then_emit process_json (say "hi")
      then_emit process_json (call_tool "}")).1
    ≡ message_start "" ""
      ∷ content_block_start 0 tool_use "" ""
      ∷ input_json_delta 0 "{"
      ∷ content_block_stop 0
      ∷ content_block_start 1 text "" ""
      ∷ text_delta 1 "hi"
      ∷ input_json_delta 1 "}"
      ∷ []
unfolding process_json new is_blank
fragment_in_text_block = refl

-- A second finish after the usage stops the message again.
stopped_twice :
    (process_json (say "hi") new
      then_emit process_json usage_only
      then_emit process_json finish
      then_emit process_json finish).1
    ≡ message_start "" ""
      ∷ content_block_start 0 text "" ""
      ∷ text_delta 0 "hi"
      ∷ content_block_stop 0
      ∷ message_delta "end_turn" 5
      ∷ message_stop
      ∷ message_delta "end_turn" 5
      ∷ message_stop
      ∷ []
unfolding process_json new is_blank
stopped_twice = refl

abbrev says_hi : String → String ⊎ Json
says_hi _ = inr (say "hi")

process_chunk-Accepted_example :
    Accepted new (process_chunk says_hi "data: {}\n\ndata: [DONE]\n" new)
process_chunk-Accepted_example = process_chunk-Accepted says_hi "data: {}\n\ndata: [DONE]\n" new

-- A role, and then a tool call with its arguments.
abbrev opens_tool : Json
opens_tool = object (
    member "content_block"
      (object (
        member "type" (string "tool_use")
          (member "id" (string "t1") (member "name" (string "sum") no_members))))
      no_members)

abbrev tool_args : Json
tool_args = object (
    member "delta"
      (object (
        member "type" (string "input_json_delta") (member "partial_json" (string "{}") no_members)))
      no_members)

abbrev reads_tool : String → String ⊎ Json
reads_tool d = if str_eq d "open" then inr opens_tool else inr tool_args

abbrev two_tools : List (String × String)
two_tools =
    ("content_block_start", "open")
    ∷ ("content_block_delta", "args")
    ∷ ("content_block_start", "open")
    ∷ ("message_stop", "stop")
    ∷ []

tools_in_a_row :
    (translated reads_tool two_tools (new_at 7)).1
    ≡ ToOpenai.chunk "" 7 "" role
      ∷ ToOpenai.chunk "" 7 "" (tool_call_start 0 "t1" "sum")
      ∷ ToOpenai.chunk "" 7 "" (tool_call_args 0 "{}")
      ∷ ToOpenai.chunk "" 7 "" (tool_call_start 1 "t1" "sum")
      ∷ ToOpenai.chunk "" 7 "" (ToOpenai.finish "stop")
      ∷ done
      ∷ []
unfolding process_event new_at
tools_in_a_row = refl

translated-heard_example :
    hear_all
      (translated reads_tool two_tools (new_at 7)).1
      record { said_role = false; tool_calls = 0 }
    ≡ some (heard_of (translated reads_tool two_tools (new_at 7)).0)
translated-heard_example = translated-heard reads_tool two_tools 7
