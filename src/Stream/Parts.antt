-- ===== src/Stream/Parts.antt =====
-- crates/translator/src/stream_state.rs: each part of a delta keeps to the protocol of the blocks.
use chenni_x_api.Prelude.Int.{ℤ, eqb_ℤ}
use chenni_x_api.Prelude.Tests.{==_refl, Bool-cases}
use chenni_x_api.Prelude.{
  ◌≡◌, refl, suc, inl, inr, String, true, Option, none, some, [], ◌∷◌, arith,
}
use chenni_x_api.Common.Text.{is_blank}
use chenni_x_api.Json.{Json, Items, no_items, item, get_field, field_of, text_of}
use chenni_x_api.Stream.ToClaude.{
  text, thinking, tool_use, is_kind, text_delta, thinking_delta, StreamState, ◌then_emit◌,
  close_current_block, open_block, ensure_block, reasoning_of, tool_index, or_empty, emit_reasoning,
  switch_tool, emit_arguments, emit_tool_call, emit_tool_calls, emit_text, stop_message,
  note_finish, emit_finish,
}
use chenni_x_api.Stream.Chunks.{items_of, or_null, start_message, emit_choice}
use chenni_x_api.Stream.Blocks.{
  Shows, Shows-then, close-Shows, reopen-Shows, stay-Shows, ensure-Shows, ensured-thinking,
  ensured-text,
}

thinking_delta-Shows :
    (r : String) (s : StreamState)
    → s.started ≡ true
    → is_kind thinking s.current_block_type ≡ true
    → Shows s (s, thinking_delta s.content_block_index r ∷ [])
thinking_delta-Shows r s h k = ground (arith, ==_refl s.content_block_index)

text_delta-Shows :
    (r : String) (s : StreamState)
    → s.started ≡ true
    → is_kind text s.current_block_type ≡ true
    → Shows s (s, text_delta s.content_block_index r ∷ [])
text_delta-Shows r s h k = ground (arith, ==_refl s.content_block_index)

reasoning-Shows :
    (r : Option String) (s : StreamState) → s.started ≡ true → Shows s (emit_reasoning r s)
unfolding emit_reasoning
reasoning-Shows none s h = stay-Shows s h
reasoning-Shows (some r) s h = elim (Bool-cases (is_blank r)) [
  | inl k ↦ rw k (stay-Shows s h)
  | inr k ↦
      let ensured = ensure-Shows thinking s h in
      let s' = (ensure_block thinking s).0 in
      rw k (
        Shows-then s (ensure_block thinking s)
          (λ s. (s, thinking_delta s.content_block_index r ∷ [])) ensured
          (thinking_delta-Shows r s' ensured.1 (ensured-thinking s)))
]

text-Shows : (r : Option String) (s : StreamState) → s.started ≡ true → Shows s (emit_text r s)
unfolding emit_text
text-Shows none s h = stay-Shows s h
text-Shows (some r) s h = elim (Bool-cases (is_blank r)) [
  | inl k ↦ rw k (stay-Shows s h)
  | inr k ↦
      let ensured = ensure-Shows text s h in
      let s' = (ensure_block text s).0 in
      rw k (
        Shows-then s (ensure_block text s) (λ s. (s, text_delta s.content_block_index r ∷ []))
          ensured (text_delta-Shows r s' ensured.1 (ensured-text s)))
]

switch-Shows :
    (index : ℤ) (id name : String) (s : StreamState)
    → s.started ≡ true
    → Shows s (switch_tool index id name s)
unfolding switch_tool
switch-Shows index id name s h = elim (Bool-cases (eqb_ℤ index s.current_oai_tool_index)) [
  | inl k ↦ rw k (stay-Shows s h)
  | inr k ↦
      let opened = reopen-Shows tool_use id name s h in
      rw k (
        Shows-then s (close_current_block s then_emit open_block tool_use id name)
          (λ s. (
            record s {
              current_oai_tool_index = index;
              current_tool_id = some id;
              tool_call_index = suc s.tool_call_index;
            },
            [],
          ))
          opened (refl, opened.1))
]

arguments-Shows :
    (r : Option String) (s : StreamState) → s.started ≡ true → Shows s (emit_arguments r s)
unfolding emit_arguments
arguments-Shows r s h = ground (arith, ==_refl s.content_block_index)

tool_call-Shows : (tc : Json) (s : StreamState) → s.started ≡ true → Shows s (emit_tool_call tc s)
unfolding emit_tool_call
tool_call-Shows tc s h =
    let index = tool_index tc in
    let id = or_empty (text_of (get_field "id" tc)) in
    let name = or_empty (text_of (field_of "name" (get_field "function" tc))) in
    let args = text_of (field_of "arguments" (get_field "function" tc)) in
    let switched = switch-Shows index id name s h in
    Shows-then s (switch_tool index id name s) (emit_arguments args) switched
      (arguments-Shows args (switch_tool index id name s).0 switched.1)

tool_calls-Shows :
    (tcs : Items) (s : StreamState) → s.started ≡ true → Shows s (emit_tool_calls tcs s)
unfolding emit_tool_calls
tool_calls-Shows no_items s h = stay-Shows s h
tool_calls-Shows (item tc tcs) s h =
    let called = tool_call-Shows tc s h in
    Shows-then s (emit_tool_call tc s) (emit_tool_calls tcs) called
      (tool_calls-Shows tcs (emit_tool_call tc s).0 called.1)

note_finish-Shows : (fr : String) (s : StreamState) → s.started ≡ true → Shows s (note_finish fr s)
unfolding note_finish stop_message
note_finish-Shows fr s h = ground arith

finish-Shows :
    (fr : Option String) (s : StreamState) → s.started ≡ true → Shows s (emit_finish fr s)
unfolding emit_finish
finish-Shows none s h = stay-Shows s h
finish-Shows (some fr) s h =
    let closed = close-Shows s h in
    Shows-then s (close_current_block s) (note_finish fr) closed
      (note_finish-Shows fr (close_current_block s).0 closed.1)

start-Shows : (s : StreamState) → Shows s (start_message s)
unfolding start_message
start-Shows s = ground arith

pub choice-Shows : (choice : Json) (s : StreamState) → Shows s (emit_choice choice s)
unfolding emit_choice
choice-Shows choice s =
    let delta = or_null (get_field "delta" choice) in
    let reasoning = reasoning_of delta in
    let calls = items_of (get_field "tool_calls" delta) in
    let content = text_of (get_field "content" delta) in
    let finish = text_of (get_field "finish_reason" choice) in
    let m₁ = start_message s in
    let m₂ = m₁ then_emit emit_reasoning reasoning in
    let m₃ = m₂ then_emit emit_tool_calls calls in
    let m₄ = m₃ then_emit emit_text content in
    let h₁ = start-Shows s in
    let h₂ = Shows-then s m₁ (emit_reasoning reasoning) h₁ (reasoning-Shows reasoning m₁.0 h₁.1) in
    let h₃ = Shows-then s m₂ (emit_tool_calls calls) h₂ (tool_calls-Shows calls m₂.0 h₂.1) in
    let h₄ = Shows-then s m₃ (emit_text content) h₃ (text-Shows content m₃.0 h₃.1) in
    Shows-then s m₄ (emit_finish finish) h₄ (finish-Shows finish m₄.0 h₄.1)
