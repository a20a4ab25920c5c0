-- ===== src/Stream/Roles.antt =====
-- crates/translator/src/stream_state.rs: what an OpenAI client sees of the role and the tool calls.
use chenni_x_api.Prelude.Tests.{◌==◌, ==_refl, if◌then◌else◌, Bool-cases, Option-cases}
use chenni_x_api.Prelude.{
  ◌≡◌, refl, ℕ, suc, inl, inr, String, str_eq, Bool, true, ◌&&◌, Option, none, some, List, [], ◌∷◌,
  ◌++◌, arith,
}
use chenni_x_api.Json.{Json, get_field, field_of, text_of}
use chenni_x_api.Stream.ToClaude.{or_empty}
use chenni_x_api.Stream.ToOpenai.{
  Says, role, content, reasoning, tool_call_start, tool_call_args, finish, usage, Chunk, chunk,
  done, OaiState, Pushes, ◌then_push◌, say, say_role, on_message_start, block_index, open_tool_call,
  on_block_start, enter_text, say_content, say_reasoning, say_args, on_block_delta,
  defer_stop_reason, defer_usage, say_usage, on_message_stop,
}
use chenni_x_api.Stream.Events.{on_event}

-- What a client keeps: has the role been said, and how many tool calls have been opened.
pub record Heard : Type 0 where
  pub said_role : Bool
  pub tool_calls : ℕ

-- A client that checks the chunks: the role once, text and tool calls only after it, tool calls
-- numbered in a row, and arguments for the last one. `none` is a violation.
abbrev pub hear_said : Says → Heard → Option Heard
hear_said role h = if h.said_role then none else some (record h { said_role = true })
hear_said (content t) h = if h.said_role then some h else none
hear_said (reasoning t) h = if h.said_role then some h else none
hear_said (tool_call_start i id name) h =
    if h.said_role && i == h.tool_calls then some (record h { tool_calls = suc i }) else none
hear_said (tool_call_args i args) h = if h.said_role && suc i == h.tool_calls then some h else none
hear_said (finish r) h = some h
hear_said (usage p c t) h = some h

abbrev pub hear : Chunk → Heard → Option Heard
hear (chunk id created model what) h = hear_said what h
hear done h = some h

abbrev pub hear_all : List Chunk → Heard → Option Heard
hear_all [] h = some h
hear_all (c ∷ cs) h = elim (hear c h) [ none ↦ none | some h' ↦ hear_all cs h' ]

abbrev pub heard_of : OaiState → Heard
heard_of s = record { said_role = s.started; tool_calls = s.tool_call_index }

-- The tool call that takes arguments is the last one opened, after the role.
abbrev pub LastTool : Option ℕ → Bool → ℕ → Type 0
LastTool none started n = Unit
LastTool (some i) started n = (started ≡ true) × (suc i ≡ n)

abbrev pub Tied : OaiState → Type 0
Tied s = LastTool s.current_oai_tool_index s.started s.tool_call_index

-- The chunks take the client from one state to the other, which is tied.
abbrev pub Tells : OaiState → Pushes → Type 0
Tells s (s', cs) = (hear_all cs (heard_of s) ≡ some (heard_of s')) × Tied s'

pub hear_all-append :
    (cs ds : List Chunk) (u v w : Heard)
    → hear_all cs u ≡ some v
    → hear_all ds v ≡ some w
    → hear_all (cs ++ ds) u ≡ some w
hear_all-append [] ds u v w h k = ground arith
hear_all-append (c ∷ cs) ds u v w h k = elim (Option-cases (hear c u)) [
  | inl x ↦ ground arith
  | inr (u', x) ↦ ground (arith, hear_all-append cs ds u' v w)
]

pub Tells-then :
    (s : OaiState) (m : Pushes) (f : OaiState → Pushes)
    → Tells s m
    → Tells m.0 (f m.0)
    → Tells s (m then_push f)
Tells-then s (s', cs) f h k =
    (hear_all-append cs (f s').1 (heard_of s) (heard_of s') (heard_of (f s').0) h.0 k.0, k.1)

say_role-Tells : (s : OaiState) → Tied s → Tells s (say_role s)
unfolding say_role say
say_role-Tells s h = ground arith

said : (s : OaiState) → (say_role s).0.started ≡ true
unfolding say_role
said s = ground arith

open_tool_call-Tells :
    (id name : String) (s : OaiState) → s.started ≡ true → Tells s (open_tool_call id name s)
unfolding open_tool_call say
open_tool_call-Tells id name s h = ground (arith, ==_refl s.tool_call_index)

say_args-Tells :
    (partial : String) (s : OaiState)
    → Tied s
    → Tells s (say_args s.current_oai_tool_index partial s)
unfolding say_args say
say_args-Tells partial s h = ground (arith, ==_refl s.tool_call_index)

say_reasoning-Tells :
    (t : Option String) (s : OaiState) → s.started ≡ true → Tied s → Tells s (say_reasoning t s)
unfolding say_reasoning say
say_reasoning-Tells none s h k = (refl, k)
say_reasoning-Tells (some t) s h k = ground arith

say_content-Tells :
    (t : String) (s : OaiState) → s.started ≡ true → Tied s → Tells s (say_content t s)
unfolding say_content say
say_content-Tells t s h k = ground arith

after_role :
    (s : OaiState) (f : OaiState → Pushes)
    → Tied s
    → ((s' : OaiState) → s'.started ≡ true → Tied s' → Tells s' (f s'))
    → Tells s (say_role s then_push f)
after_role s f h k =
    let first = say_role-Tells s h in
    Tells-then s (say_role s) f first (k (say_role s).0 (said s) first.1)

start-Tells :
    (block_type : String) (block : Option Json) (s : OaiState)
    → Tied s
    → Tells s (on_block_start block_type block s)
unfolding on_block_start enter_text
start-Tells block_type block s h = elim (Bool-cases (str_eq block_type "text")) [
  | inl x ↦ rw x (after_role s enter_text h λ s' _ k. (refl, k))
  | inr x ↦ rw x elim (Bool-cases (str_eq block_type "tool_use")) [
    | inl y ↦ rw y (
        let id = or_empty (text_of (field_of "id" block)) in
        let name = or_empty (text_of (field_of "name" block)) in
        after_role s (open_tool_call id name) h λ s' u _. open_tool_call-Tells id name s' u)
    | inr y ↦ rw y (refl, h)
  ]
]

delta-Tells :
    (delta_type : String) (delta : Option Json) (s : OaiState)
    → Tied s
    → Tells s (on_block_delta delta_type delta s)
unfolding on_block_delta
delta-Tells delta_type delta s h = elim (Bool-cases (str_eq delta_type "text_delta")) [
  | inl x ↦ rw x (
      let t = or_empty (text_of (field_of "text" delta)) in
      after_role s (say_content t) h (say_content-Tells t))
  | inr x ↦ rw x elim (Bool-cases (str_eq delta_type "thinking_delta")) [
    | inl y ↦ rw y (
        let t = text_of (field_of "thinking" delta) in
        after_role s (say_reasoning t) h (say_reasoning-Tells t))
    | inr y ↦ rw y elim (Bool-cases (str_eq delta_type "input_json_delta")) [
      | inl z ↦ rw z (say_args-Tells (or_empty (text_of (field_of "partial_json" delta))) s h)
      | inr z ↦ rw z (refl, h)
    ]
  ]
]

quiet_start : (m : Option Json) (s : OaiState) → Tied s → Tells s (on_message_start m s, [])
unfolding on_message_start
quiet_start none s h = (refl, h)
quiet_start (some m) s h = (refl, h)

quiet_delta :
    (u : Option Json) (r : Option String) (s : OaiState)
    → Tied s
    → Tells s (defer_usage u (defer_stop_reason r s), [])
unfolding defer_usage defer_stop_reason
quiet_delta none none s h = (refl, h)
quiet_delta none (some r) s h = (refl, h)
quiet_delta (some u) none s h = (refl, h)
quiet_delta (some u) (some r) s h = (refl, h)

stop-Tells : (s : OaiState) → Tied s → Tells s (on_message_stop s)
unfolding on_message_stop say_usage say
stop-Tells s h = ground arith

pub event-Tells : (event : String) (v : Json) (s : OaiState) → Tied s → Tells s (on_event event v s)
unfolding on_event
event-Tells event v s h = elim (Bool-cases (str_eq event "message_start")) [
  | inl a ↦ rw a (quiet_start (get_field "message" v) s h)
  | inr a ↦ rw a elim (Bool-cases (str_eq event "content_block_start")) [
    | inl b ↦ rw b (
        start-Tells (or_empty (text_of (field_of "type" (get_field "content_block" v))))
          (get_field "content_block" v)
          record s { current_block_index = block_index (get_field "index" v) } h)
    | inr b ↦ rw b elim (Bool-cases (str_eq event "content_block_delta")) [
      | inl c ↦ rw c (
          delta-Tells (or_empty (text_of (field_of "type" (get_field "delta" v))))
            (get_field "delta" v) s h)
      | inr c ↦ rw c elim (Bool-cases (str_eq event "message_delta")) [
        | inl d ↦ rw d (
            quiet_delta (get_field "usage" v)
              (text_of (field_of "stop_reason" (get_field "delta" v))) s h)
        | inr d ↦ rw d elim (Bool-cases (str_eq event "message_stop")) [
          | inl e ↦ rw e (stop-Tells s h)
          | inr e ↦ rw e (refl, h)
        ]
      ]
    ]
  ]
]
