-- ===== src/Stream/Heard.antt =====
-- crates/translator/src/stream_state.rs: what a client hears of a sequence of Claude events.
use chenni_x_api.Prelude.{◌≡◌, refl, ℕ, inl, inr, ◌⊎◌, String, some, false, List, [], ◌∷◌}
use chenni_x_api.Common.Results.{ProxyResult, ok, err}
use chenni_x_api.Json.{Json}
use chenni_x_api.Stream.ToOpenai.{Chunk, OaiState, new_at, Pushes, ◌then_push◌}
use chenni_x_api.Stream.Events.{process_parsed, process_event}
use chenni_x_api.Stream.Roles.{hear_all, heard_of, Tied, Tells, Tells-then, event-Tells}

-- An event whose data is bad gives no chunk.
abbrev pub chunks_of : ProxyResult (List Chunk) → List Chunk
chunks_of (err e) = []
chunks_of (ok cs) = cs

parsed-Tells :
    (event : String) (x : String ⊎ Json) (s : OaiState)
    → Tied s
    → Tells s ((process_parsed event x s).1, chunks_of (process_parsed event x s).0)
unfolding process_parsed
parsed-Tells event (inl e) s h = (refl, h)
parsed-Tells event (inr v) s h = event-Tells event v s h

module _ (from_str : String → String ⊎ Json) where
  abbrev pub translate_event : String × String → OaiState → Pushes
  translate_event (event, data_str) s =
      let (r, s') = process_event from_str event data_str s in (s', chunks_of r)

  -- The chunks of a sequence of events.
  abbrev pub translated : List (String × String) → OaiState → Pushes
  translated [] s = (s, [])
  translated (e ∷ es) s = translate_event e s then_push translated es

  translated-Tells :
      (es : List (String × String)) (s : OaiState) → Tied s → Tells s (translated es s)
  unfolding process_event
  translated-Tells [] s h = (refl, h)
  translated-Tells ((event, data_str) ∷ es) s h =
      let first = parsed-Tells event (from_str data_str) s h in
      Tells-then s (translate_event (event, data_str) s) (translated es) first
        (translated-Tells es (translate_event (event, data_str) s).0 first.1)

  -- For every sequence of Claude events, from a new state and with any reading of the data, the
  -- chunks keep to what a client checks: the role is said once and before all text, reasoning and
  -- tool calls; the tool calls are numbered 0, 1, 2 and so on; arguments carry the number of the
  -- last tool call opened; and the client ends with the role and the count of the state.
  pub translated-heard :
      (es : List (String × String)) (now : ℕ)
      → hear_all (translated es (new_at now)).1 record { said_role = false; tool_calls = 0 }
        ≡ some (heard_of (translated es (new_at now)).0)
  unfolding new_at
  translated-heard es now = (translated-Tells es (new_at now) tt).0
