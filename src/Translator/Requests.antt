-- ===== src/Translator/Requests.antt =====
-- crates/translator/src/o2c.rs: the request that a Claude upstream reads.
use chenni_x_api.Prelude.Lists.{All}
use chenni_x_api.Prelude.{
  ◌≡◌, refl, ap, sym, ◌∙◌, subst, ◌⊎◌, String, str_eq, Bool, true, false, Option, none, some, List,
  [], ◌∷◌, ◌++◌, map, arith,
}
use chenni_x_api.Prelude.Tests.{if◌then◌else◌}
use mathlib.Core.List.{append_assoc, append-nil}
use chenni_x_api.Common.Results.{ProxyResult, ok, err}
use chenni_x_api.Json.{
  Json, array, object, Items, no_items, item, Members, member, find_member, get_field, text_of,
}
use chenni_x_api.Stream.Chunks.{items_of}
use chenni_x_api.Translator.Parts.{optional, to_items, some_text}
use chenni_x_api.Translator.ToClaude.{
  Turn, push_turn, merge_turns, placeholder, lead_with_user, turn_message, walk, claude_turns,
  openai_to_claude_request,
}
use chenni_x_api.Translator.Turns.{Alternates, StartsWithUser, IsSpeaker, turns-Alternates}

-- The roles of messages, as the upstream reads them.
abbrev pub roles_in : Items → List String
unfolding get_field text_of
roles_in no_items = []
roles_in (item m ms) = some_text (text_of (get_field "role" m)) "" ∷ roles_in ms

abbrev pub messages_in : Json → Items
unfolding get_field
messages_in v = items_of (get_field "messages" v)

roles-turns :
    (ts : List Turn) → roles_in (to_items (map turn_message ts)) ≡ map (λ (t : Turn). t.0) ts
unfolding get_field text_of
roles-turns [] = refl
roles-turns (t ∷ ts) = ap (λ rs. t.0 ∷ rs) (roles-turns ts)

-- What a member's name finds past an optional member.
abbrev pub choose_member : Bool → Option Json → Option Json → Option Json
choose_member true (some v) later = some v
choose_member true none later = later
choose_member false o later = later

pub find-optional :
    (k j : String) (o : Option Json) (ms : Members)
    → find_member k (optional j o ms) ≡ choose_member (str_eq j k) o (find_member k ms)
unfolding find_member
find-optional k j none ms = ground arith
find-optional k j (some v) ms = ground arith

-- A request that keeps to the upstream's rules.
abbrev pub KeepsToTurns : ProxyResult Json → Type 0
KeepsToTurns (err e) = ⊥
KeepsToTurns (ok v) =
    Alternates (roles_in (messages_in v))
    × StartsWithUser (roles_in (messages_in v))
    × All IsSpeaker (roles_in (messages_in v))

messages-optional :
    (o : Option Json) (xs : Items) (ms : Members)
    → messages_in (object (optional "model" o (member "messages" (array xs) ms))) ≡ xs
unfolding get_field
messages-optional none xs ms = refl
messages-optional (some v) xs ms = refl

-- The content blocks of turns, one turn after the other.
abbrev pub blocks_in : List Turn → List Json
blocks_in [] = []
blocks_in (t ∷ ts) = t.1 ++ blocks_in ts

push-blocks : (ts : List Turn) (t : Turn) → blocks_in (push_turn ts t) ≡ blocks_in ts ++ t.1
unfolding push_turn
push-blocks [] t = append-nil t.1
push-blocks (u ∷ []) t = joined (str_eq u.0 t.0)
  where
    joined :
        (same : Bool)
        → blocks_in (if same then (u.0, u.1 ++ t.1) ∷ [] else u ∷ t ∷ []) ≡ (u.1 ++ []) ++ t.1
    joined true = simp append-nil
    joined false = simp append-nil
push-blocks (u ∷ v ∷ us) t =
    rw (append_assoc u.1 (blocks_in (v ∷ us)) t.1) (ap (λ bs. u.1 ++ bs) (push-blocks (v ∷ us) t))

merge-blocks :
    (merged ts : List Turn) → blocks_in (merge_turns merged ts) ≡ blocks_in merged ++ blocks_in ts
unfolding merge_turns
merge-blocks merged [] = sym (append-nil (blocks_in merged))
merge-blocks merged (t ∷ ts) =
    merge-blocks (push_turn merged t) ts
    ∙ ap (λ bs. bs ++ blocks_in ts) (push-blocks merged t)
    ∙ append_assoc (blocks_in merged) t.1 (blocks_in ts)

-- The placeholder's block, where the first turn is not the user's.
abbrev pub filler : List Turn → List Json
filler [] = placeholder.1
filler (t ∷ ts) = if str_eq t.0 "user" then [] else placeholder.1

lead-blocks : (ts : List Turn) → blocks_in (lead_with_user ts) ≡ filler ts ++ blocks_in ts
unfolding lead_with_user
lead-blocks [] = refl
lead-blocks (t ∷ ts) = ground arith

module _ (from_str : String → String ⊎ Json) (to_text : Json → String) where
  -- For every OpenAI body, the translation gives a request, never an error; its messages start with
  -- a user's, no two neighbours have the same role, and no role is `system` or `tool`.
  pub request-KeepsToTurns :
      (body : Json) → KeepsToTurns (openai_to_claude_request from_str to_text body)
  unfolding openai_to_claude_request
  request-KeepsToTurns body =
      let ts = claude_turns from_str to_text body in
      let read =
        ap roles_in (messages-optional (get_field "model" body) (to_items (map turn_message ts)) _)
        ∙ roles-turns ts in
      subst (λ rs. Alternates rs × StartsWithUser rs × All IsSpeaker rs) (sym read)
        (turns-Alternates from_str to_text body)

  -- Merging loses no content: the blocks of the turns, in order, are those of the messages that are
  -- not the system's, behind the placeholder's where the first merged turn is not the user's.
  pub claude_turns-blocks :
      (body : Json)
      → (let turns = (walk from_str to_text (messages_in body)).1 in
          blocks_in (claude_turns from_str to_text body)
          ≡ filler (merge_turns [] turns) ++ blocks_in turns)
  unfolding claude_turns
  claude_turns-blocks body =
      let turns = (walk from_str to_text (messages_in body)).1 in
      lead-blocks (merge_turns [] turns)
      ∙ ap (λ bs. filler (merge_turns [] turns) ++ bs) (merge-blocks [] turns)
