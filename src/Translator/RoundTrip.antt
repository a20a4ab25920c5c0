-- ===== src/Translator/RoundTrip.antt =====
-- crates/translator/src/c2o.rs and o2c.rs: an OpenAI answer to Claude's format and back.
use text.Mathlib.TextLemmas.{append-nil}
use chenni_x_api.Prelude.Lists.{All}
use chenni_x_api.Prelude.Tests.{Bool-cases}
use chenni_x_api.Prelude.{
  ℕ, ◌≡◌, refl, ap, ◌⊎◌, inl, inr, String, str_eq, Option, none, some, List, [], ◌∷◌, ◌++◌, map,
}
use chenni_x_api.Common.Text.{is_blank}
use chenni_x_api.Common.Results.{ok}
use chenni_x_api.Json.{Json, string, object, no_members, member, get_field, text_of, count_at}
use chenni_x_api.Stream.Chunks.{first_choice}
use chenni_x_api.Stream.ToClaude.{reasoning_of}
use chenni_x_api.Translator.Parts.{
  field_or, to_items, map_items, texts_of, text_block, optional, tool_use_block,
}
use chenni_x_api.Translator.ToOpenai.{tool_calls_of}
use chenni_x_api.Translator.Responses.{
  thoughts_of, finish_of, stop_of, claude_usage, openai_usage, some_string, message_blocks,
  some_block, openai_message, openai_to_claude_response, claude_to_openai_response,
}
use chenni_x_api.Translator.Answers.{
  Call, Answer, text_or_null, or_blank, kept_finish, kept, and_then, call_json, call_list, nonempty,
  answer_json,
}

module _ (from_str : String → String ⊎ Json) (to_text : Json → String) where
  -- serde_json reads back what it wrote, for the inputs of the calls.
  abbrev pub Rereads : List Call → Type 0
  Rereads = All (λ c. from_str (to_text c.input) ≡ inr c.input)

  abbrev pub call_block : Call → Json
  call_block c = object (
      member "type" (string "tool_use")
        (member "id" c.id (member "name" c.name (member "input" c.input no_members))))

  blocks_lem :
      (cs : List Call)
      → Rereads cs
      → map_items (tool_use_block from_str) (to_items (map (call_json to_text) cs))
        ≡ map call_block cs
  unfolding tool_use_block get_field text_of
  blocks_lem [] h = refl
  blocks_lem (c ∷ cs) h = rw (h.0, blocks_lem cs h.1)

  texts_lem : (cs : List Call) → texts_of (to_items (map call_block cs)) ≡ []
  unfolding texts_of
  texts_lem [] = refl
  texts_lem (c ∷ cs) = texts_lem cs

  thoughts_lem : (cs : List Call) → thoughts_of (to_items (map call_block cs)) ≡ []
  unfolding thoughts_of
  thoughts_lem [] = refl
  thoughts_lem (c ∷ cs) = thoughts_lem cs

  calls_lem :
      (cs : List Call)
      → tool_calls_of to_text (to_items (map call_block cs)) ≡ map (call_json to_text) cs
  unfolding tool_calls_of get_field
  calls_lem [] = refl
  calls_lem (c ∷ cs) = ap (λ vs. call_json to_text c ∷ vs) (calls_lem cs)

  abbrev pub thinking : String → List Json
  thinking String.[] = []
  thinking (String.◌∷◌ c s) =
      object
        (member "type" (string "thinking") (member "thinking" (string (String.◌∷◌ c s)) no_members))
      ∷ []

  abbrev pub saying : String → List Json
  saying String.[] = []
  saying (String.◌∷◌ c s) = text_block (String.◌∷◌ c s) ∷ []

  abbrev pub message_json : Option String → String → List Call → Json
  message_json content reasoning calls = object (
      member "role" (string "assistant") (
        member "content" (text_or_null content) (
          optional "reasoning_content" (nonempty to_text reasoning)
            (optional "tool_calls" (call_list to_text calls) no_members))))

  there :
      (content reasoning : String) (cs : List Call)
      → Rereads cs
      → message_blocks from_str (some (message_json (some content) reasoning cs))
        ≡ thinking reasoning ++ saying content ++ map call_block cs
  unfolding message_blocks reasoning_of get_field text_of is_blank
  there String.[] String.[] [] h = refl
  there String.[] String.[] (c ∷ cs) h = blocks_lem (c ∷ cs) h
  there (String.◌∷◌ x s) String.[] [] h = refl
  there (String.◌∷◌ x s) String.[] (c ∷ cs) h =
      ap (λ bs. saying (String.◌∷◌ x s) ++ bs) (blocks_lem (c ∷ cs) h)
  there String.[] (String.◌∷◌ y r) [] h = refl
  there String.[] (String.◌∷◌ y r) (c ∷ cs) h =
      ap (λ bs. thinking (String.◌∷◌ y r) ++ bs) (blocks_lem (c ∷ cs) h)
  there (String.◌∷◌ x s) (String.◌∷◌ y r) [] h = refl
  there (String.◌∷◌ x s) (String.◌∷◌ y r) (c ∷ cs) h =
      ap (λ bs. thinking (String.◌∷◌ y r) ++ saying (String.◌∷◌ x s) ++ bs) (blocks_lem (c ∷ cs) h)

  there_null :
      (reasoning : String) (cs : List Call)
      → Rereads cs
      → message_blocks from_str (some (message_json none reasoning cs))
        ≡ thinking reasoning ++ saying "" ++ map call_block cs
  unfolding message_blocks reasoning_of get_field text_of is_blank
  there_null String.[] [] h = refl
  there_null String.[] (c ∷ cs) h = blocks_lem (c ∷ cs) h
  there_null (String.◌∷◌ y r) [] h = refl
  there_null (String.◌∷◌ y r) (c ∷ cs) h =
      ap (λ bs. thinking (String.◌∷◌ y r) ++ bs) (blocks_lem (c ∷ cs) h)

  message_there :
      (content : Option String) (reasoning : String) (cs : List Call)
      → Rereads cs
      → message_blocks from_str (some (message_json content reasoning cs))
        ≡ thinking reasoning ++ saying (or_blank content) ++ map call_block cs
  message_there none reasoning cs h = there_null reasoning cs h
  message_there (some content) reasoning cs h = there content reasoning cs h

  and_back :
      (now : ℕ) (content reasoning : String) (cs : List Call)
      → openai_message to_text now
          (to_items (some_block (thinking reasoning ++ saying content ++ map call_block cs)))
        ≡ message_json (some content) reasoning cs
  unfolding openai_message some_block some_string thoughts_of texts_of tool_calls_of get_field
      text_of
  and_back now String.[] String.[] [] = refl
  and_back now String.[] String.[] (c ∷ cs) = rw (texts_lem cs, thoughts_lem cs, calls_lem cs)
  and_back now (String.◌∷◌ x s) String.[] [] = rw (append-nil (String.◌∷◌ x s))
  and_back now (String.◌∷◌ x s) String.[] (c ∷ cs) =
      rw (texts_lem cs, thoughts_lem cs, calls_lem cs, append-nil (String.◌∷◌ x s))
  and_back now String.[] (String.◌∷◌ y r) [] = rw (append-nil (String.◌∷◌ y r))
  and_back now String.[] (String.◌∷◌ y r) (c ∷ cs) =
      rw (texts_lem cs, thoughts_lem cs, calls_lem cs, append-nil (String.◌∷◌ y r))
  and_back now (String.◌∷◌ x s) (String.◌∷◌ y r) [] =
      rw (append-nil (String.◌∷◌ y r), append-nil (String.◌∷◌ x s))
  and_back now (String.◌∷◌ x s) (String.◌∷◌ y r) (c ∷ cs) = rw (
    texts_lem cs,
    thoughts_lem cs,
    calls_lem cs,
    append-nil (String.◌∷◌ y r),
    append-nil (String.◌∷◌ x s),
  )

  finish_lem :
      (f : Option String)
      → finish_of (some (stop_of (text_of (some (text_or_null f))))) ≡ kept_finish f
  unfolding finish_of stop_of text_of
  finish_lem none = refl
  finish_lem (some f) = elim (Bool-cases (str_eq f "tool_calls")) [
    | inl h ↦ rw h refl
    | inr h ↦ elim (Bool-cases (str_eq f "length")) [
      | inl k ↦ rw (h, k) refl
      | inr k ↦ rw (h, k) refl
    ]
  ]

  -- An answer of one choice in OpenAI's format, translated to Claude's and back, has the time of the
  -- way back and the same id, model, reasoning, tool calls and usage. Its content is the same text,
  -- and empty where it was null; its finish is the same where it was `tool_calls` or `length`, and
  -- `stop` otherwise, so that `content_filter` is lost. The condition is that serde_json reads back
  -- the arguments of the tool calls that it wrote.
  pub response_round_trip :
      (made now : ℕ) (a : Answer)
      → Rereads a.calls
      → and_then
          (openai_to_claude_response from_str (answer_json to_text made a))
          (claude_to_openai_response to_text now)
        ≡ ok (answer_json to_text now (kept a))
  unfolding openai_to_claude_response claude_to_openai_response claude_usage openai_usage field_or
      first_choice get_field count_at
  response_round_trip made now a h = rw (
    message_there a.content a.reasoning a.calls h,
    and_back now (or_blank a.content) a.reasoning a.calls,
    finish_lem a.finish,
  )
