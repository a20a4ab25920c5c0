-- ===== src/Translator/Answers.antt =====
-- crates/translator/src/c2o.rs and o2c.rs: what an OpenAI answer says, and what comes back of it.
use chenni_x_api.Prelude.Tests.{if◌then◌else◌}
use chenni_x_api.Prelude.{ℕ, ◌+◌, ◌%◌, String, str_eq, Option, none, some, List, [], ◌∷◌, map}
use chenni_x_api.Common.Results.{ProxyResult, ok, err}
use chenni_x_api.Json.{
  Json, null, integer, string, array, object, no_items, item, no_members, member,
}
use chenni_x_api.Translator.Parts.{to_items, optional}

-- A tool call's arguments are a JSON value; `Answer` is what an OpenAI response says.
pub record Call : Type 0 where
  pub id : Json
  pub name : Json
  pub input : Json

pub record Answer : Type 0 where
  pub id : Json
  pub model : Json
  pub content : Option String
  pub reasoning : String
  pub calls : List Call
  pub finish : Option String
  pub prompt_tokens : ℕ
  pub completion_tokens : ℕ

-- A text, or null where there is none.
abbrev pub text_or_null : Option String → Json
text_or_null none = null
text_or_null (some t) = string t

abbrev pub or_blank : Option String → String
or_blank none = ""
or_blank (some t) = t

-- What comes back of a finish reason: Claude's format has no word for the others.
abbrev pub kept_finish : Option String → String
kept_finish none = "stop"
kept_finish (some f) =
    if str_eq f "tool_calls" then "tool_calls" else if str_eq f "length" then "length" else "stop"

-- What comes back of an answer.
abbrev pub kept : Answer → Answer
kept a = record a { content = some (or_blank a.content); finish = some (kept_finish a.finish) }

-- `?` on a result.
abbrev pub and_then : ProxyResult Json → (Json → ProxyResult Json) → ProxyResult Json
and_then (ok v) f = f v
and_then (err e) f = err e

module _ (to_text : Json → String) where
  abbrev pub call_json : Call → Json
  call_json c = object (
      member "id" c.id (
        member "type" (string "function") (
          member "function"
            (object
              (member "name" c.name (member "arguments" (string (to_text c.input)) no_members)))
            no_members)))

  abbrev pub call_list : List Call → Option Json
  call_list [] = none
  call_list (c ∷ cs) = some (array (to_items (map call_json (c ∷ cs))))

  abbrev pub nonempty : String → Option Json
  nonempty String.[] = none
  nonempty (String.◌∷◌ c s) = some (string (String.◌∷◌ c s))

  -- The response's JSON, made at a time.
  abbrev pub answer_json : ℕ → Answer → Json
  answer_json now a = object (
      member "id" a.id (
        member "object" (string "chat.completion") (
          member "created" (integer now) (
            member "model" a.model (
              member "choices"
                (array (
                  item
                    (object (
                      member "index" (integer 0) (
                        member "message"
                          (object (
                            member "role" (string "assistant") (
                              member "content" (text_or_null a.content) (
                                optional "reasoning_content" (nonempty a.reasoning)
                                  (optional "tool_calls" (call_list a.calls) no_members)))))
                          (member "finish_reason" (text_or_null a.finish) no_members))))
                    no_items))
                (member "usage"
                  (object (
                    member "prompt_tokens" (integer a.prompt_tokens) (
                      member "completion_tokens" (integer a.completion_tokens) (
                        member "total_tokens"
                          (integer
                            ((a.prompt_tokens + a.completion_tokens) % 18_446_744_073_709_551_616))
                          no_members))))
                  no_members))))))
