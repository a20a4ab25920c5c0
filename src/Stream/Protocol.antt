-- ===== src/Stream/Protocol.antt =====
-- crates/translator/src/stream_state.rs: a whole chunk keeps to the protocol of the blocks.
use chenni_x_api.Prelude.Tests.{Bool-cases}
use chenni_x_api.Prelude.{
  ◌≡◌, refl, subst, inl, inr, ◌⊎◌, String, str_eq, ◌<>◌, Option, none, some, List, [], ◌∷◌, ◌++◌,
  arith,
}
use chenni_x_api.Common.Text.{trim, lines, strip_prefix}
use chenni_x_api.Common.Errors.{translator}
use chenni_x_api.Common.Results.{ProxyResult, ok, err}
use chenni_x_api.Json.{Json, get_field}
use chenni_x_api.Stream.ToClaude.{Event, StreamState, stop_message, stop_if_finished}
use chenni_x_api.Stream.Chunks.{
  take_ids, buffer_usage, emit_choices, process_json, process_data, process_rest, process_line,
  process_lines, process_chunk,
}
use chenni_x_api.Stream.Blocks.{accept_all, view_of, accept_all-append}
use chenni_x_api.Stream.Parts.{choice-Shows}

stop-accepted :
    (s : StreamState)
    → accept_all (stop_if_finished s).1 (view_of s) ≡ some (view_of (stop_if_finished s).0)
unfolding stop_if_finished stop_message
stop-accepted s = ground arith

choices-accepted :
    (c : Option Json) (s : StreamState)
    → accept_all (emit_choices c s).1 (view_of s) ≡ some (view_of (emit_choices c s).0)
unfolding emit_choices
choices-accepted none s = stop-accepted s
choices-accepted (some choice) s = (choice-Shows choice s).0

view_of-take_ids :
    (v : Json) (u : Option Json) (s : StreamState)
    → view_of (buffer_usage u (take_ids v s)) ≡ view_of s
unfolding take_ids buffer_usage
view_of-take_ids v u s = ground arith

-- One chunk of JSON, in every state.
process_json-accepted :
    (v : Json) (s : StreamState)
    → accept_all (process_json v s).1 (view_of s) ≡ some (view_of (process_json v s).0)
unfolding process_json
process_json-accepted v s =
    subst (λ w. accept_all (process_json v s).1 w ≡ some (view_of (process_json v s).0))
      (view_of-take_ids v (get_field "usage" v) s)
      (choices-accepted _ (buffer_usage (get_field "usage" v) (take_ids v s)))

-- What a line, or a chunk, may end in.
abbrev pub Accepted : StreamState → ProxyResult (List Event) × StreamState → Type 0
Accepted s (ok es, s') = accept_all es (view_of s) ≡ some (view_of s')
Accepted s (err e, s') = Unit

module _ (from_str : String → String ⊎ Json) where
  process_data-Accepted : (d : String) (s : StreamState) → Accepted s (process_data from_str d s)
  unfolding process_data
  process_data-Accepted d s = elim (Bool-cases (str_eq d "[DONE]")) [
    | inl h ↦ rw h (stop-accepted s)
    | inr h ↦ rw h (parsed (from_str d))
  ]
    where
      parsed :
          (x : String ⊎ Json)
          → Accepted s (elim x [
            | inl e ↦ (err (translator ("invalid JSON in SSE data: " <> e)), s)
            | inr v ↦ (ok (process_json v s).1, (process_json v s).0)
          ])
      parsed (inl e) = tt
      parsed (inr v) = process_json-accepted v s

  process_rest-Accepted :
      (rest : Option String) (s : StreamState) → Accepted s (process_rest from_str rest s)
  unfolding process_rest
  process_rest-Accepted none s = refl
  process_rest-Accepted (some rest) s = process_data-Accepted (trim rest) s

  process_line-Accepted : (l : String) (s : StreamState) → Accepted s (process_line from_str l s)
  unfolding process_line
  process_line-Accepted l s = process_rest-Accepted (strip_prefix "data:" (trim l)) s

  process_lines-Accepted :
      (ls : List String) (s : StreamState) → Accepted s (process_lines from_str ls s)
  unfolding process_lines
  process_lines-Accepted [] s = refl
  process_lines-Accepted (l ∷ ls) s =
      joined (process_line from_str l s) (process_line-Accepted l s) (process_lines-Accepted ls)
    where
      both :
          (es : List Event) (s' : StreamState) (y : ProxyResult (List Event) × StreamState)
          → accept_all es (view_of s) ≡ some (view_of s')
          → Accepted s' y
          → Accepted s (elim y.0 [ err e ↦ (err e, y.1) | ok more ↦ (ok (es ++ more), y.1) ])
      both es s' (err e, s'') h k = tt
      both es s' (ok more, s'') h k =
          accept_all-append es more (view_of s) (view_of s') (view_of s'') h k

      joined :
          (x : ProxyResult (List Event) × StreamState)
          → Accepted s x
          → ((s' : StreamState) → Accepted s' (process_lines from_str ls s'))
          → Accepted s (elim x.0 [
            | err e ↦ (err e, x.1)
            | ok es ↦ elim (process_lines from_str ls x.1).0 [
              | err e ↦ (err e, (process_lines from_str ls x.1).1)
              | ok more ↦ (ok (es ++ more), (process_lines from_str ls x.1).1)
            ]
          ])
      joined (err e, s') h later = tt
      joined (ok es, s') h later = both es s' (process_lines from_str ls s') h (later s')

  -- For every chunk that is translated, and in every state, the events keep to the protocol of the
  -- blocks, and take the client from the view of the state before to that of the state after: the
  -- message starts once, blocks start at the index that follows the last one and only while none is
  -- open, text and thinking go to the open block of their kind, and only the open block is stopped.
  pub process_chunk-Accepted :
      (chunk : String) (s : StreamState) → Accepted s (process_chunk from_str chunk s)
  unfolding process_chunk
  process_chunk-Accepted chunk s = process_lines-Accepted (lines chunk) s
