-- ===== src/Translator/Turns.antt =====
-- crates/translator/src/o2c.rs: the turns that a Claude upstream is given.
use text.Mathlib.TextEquality.{eq_iff}
use chenni_x_api.Prelude.Tests.{Bool-cases}
use chenni_x_api.Prelude.Lists.{All, All-append}
use chenni_x_api.Prelude.{
  ◌≡◌, refl, ap, inl, inr, ◌⊎◌, String, str_eq, false, List, [], ◌∷◌, ◌++◌, map, arith,
}
use chenni_x_api.Json.{Json, Items, no_items, item, get_field}
use chenni_x_api.Stream.Chunks.{items_of}
use chenni_x_api.Translator.ToClaude.{
  Turn, push_turn, merge_turns, lead_with_user, plain_turn, role_of, walk_message, walk,
  claude_turns, tool_turn,
}

-- No role follows itself.
abbrev pub Alternates : List String → Type 0
Alternates [] = Unit
Alternates (r ∷ []) = Unit
Alternates (r ∷ s ∷ rs) = (str_eq r s ≡ false) × Alternates (s ∷ rs)

abbrev roles : List Turn → List String
roles = map (λ (t : Turn). t.0)

cons-Alternates :
    (u v t : Turn) (us : List Turn)
    → str_eq u.0 v.0 ≡ false
    → Alternates (roles (push_turn (v ∷ us) t))
    → Alternates (roles (u ∷ push_turn (v ∷ us) t))
unfolding push_turn
cons-Alternates u v t [] h k = ground arith
cons-Alternates u v t (w ∷ us) h k = (h, k)

push-Alternates :
    (ts : List Turn) (t : Turn) → Alternates (roles ts) → Alternates (roles (push_turn ts t))
unfolding push_turn
push-Alternates [] t h = tt
push-Alternates (u ∷ []) t h = ground arith
push-Alternates (u ∷ v ∷ us) t h = cons-Alternates u v t us h.0 (push-Alternates (v ∷ us) t h.1)

merge-Alternates :
    (merged ts : List Turn) → Alternates (roles merged) → Alternates (roles (merge_turns merged ts))
unfolding merge_turns
merge-Alternates merged [] h = h
merge-Alternates merged (t ∷ ts) h =
    merge-Alternates (push_turn merged t) ts (push-Alternates merged t h)

-- The roles, which start with the user's.
abbrev pub StartsWithUser : List String → Type 0
StartsWithUser [] = ⊥
StartsWithUser (r ∷ rs) = r ≡ "user"

pub lead-Alternates :
    (ts : List Turn)
    → Alternates (roles ts)
    → Alternates (roles (lead_with_user ts)) × StartsWithUser (roles (lead_with_user ts))
unfolding lead_with_user
lead-Alternates [] h = (tt, refl)
lead-Alternates (t ∷ ts) h = ground (arith, eq_iff t.0 "user", eq_iff "user" t.0)

-- Neither the system's nor a tool's.
abbrev pub IsSpeaker : String → Type 0
IsSpeaker r = (str_eq r "system" ≡ false) × (str_eq r "tool" ≡ false)

push-All :
    (P : String → Type 0) (ts : List Turn) (t : Turn)
    → All P (roles ts)
    → P t.0
    → All P (roles (push_turn ts t))
unfolding push_turn
push-All P [] t h k = (k, tt)
push-All P (u ∷ []) t h k = elim (Bool-cases (str_eq u.0 t.0)) [
  | inl e ↦ rw e h
  | inr e ↦ rw e (h.0, (k, tt))
]
push-All P (u ∷ v ∷ us) t h k = (h.0, push-All P (v ∷ us) t h.1 k)

merge-All :
    (P : String → Type 0) (merged ts : List Turn)
    → All P (roles merged)
    → All P (roles ts)
    → All P (roles (merge_turns merged ts))
unfolding merge_turns
merge-All P merged [] h k = h
merge-All P merged (t ∷ ts) h k =
    merge-All P (push_turn merged t) ts (push-All P merged t h k.0) k.1

lead-All :
    (P : String → Type 0) (ts : List Turn)
    → P "user"
    → All P (roles ts)
    → All P (roles (lead_with_user ts))
unfolding lead_with_user
lead-All P [] u h = (u, tt)
lead-All P (t ∷ ts) u h = elim (Bool-cases (str_eq t.0 "user")) [
  | inl e ↦ rw e h
  | inr e ↦ rw e (u, h)
]

map-append_roles : (ts us : List Turn) → roles (ts ++ us) ≡ roles ts ++ roles us
map-append_roles [] us = refl
map-append_roles (t ∷ ts) us = ap (λ rs. t.0 ∷ rs) (map-append_roles ts us)

module _ (from_str : String → String ⊎ Json) (to_text : Json → String) where
  message-IsSpeaker : (msg : Json) → All IsSpeaker (roles (walk_message from_str to_text msg).1)
  unfolding walk_message plain_turn tool_turn
  message-IsSpeaker msg = elim (Bool-cases (str_eq (role_of from_str to_text msg) "system")) [
    | inl e ↦ rw e tt
    | inr e ↦ rw e elim (Bool-cases (str_eq (role_of from_str to_text msg) "tool")) [
      | inl k ↦ rw k ((refl, refl), tt)
      | inr k ↦ rw k ((e, k), tt)
    ]
  ]

  walk-IsSpeaker : (msgs : Items) → All IsSpeaker (roles (walk from_str to_text msgs).1)
  unfolding walk
  walk-IsSpeaker no_items = tt
  walk-IsSpeaker (item msg msgs) =
      rw (map-append_roles (walk_message from_str to_text msg).1 (walk from_str to_text msgs).1) (
        All-append IsSpeaker (roles (walk_message from_str to_text msg).1) _ (message-IsSpeaker msg)
          (walk-IsSpeaker msgs))

  pub turns-Alternates :
      (body : Json)
      → Alternates (roles (claude_turns from_str to_text body))
        × StartsWithUser (roles (claude_turns from_str to_text body))
        × All IsSpeaker (roles (claude_turns from_str to_text body))
  unfolding claude_turns
  turns-Alternates body =
      let msgs = items_of (get_field "messages" body) in
      let turns = (walk from_str to_text msgs).1 in
      let led = lead-Alternates (merge_turns [] turns) (merge-Alternates [] turns tt) in
      (
        led.0,
        led.1,
        lead-All IsSpeaker (merge_turns [] turns) (refl, refl)
            (merge-All IsSpeaker [] turns tt (walk-IsSpeaker msgs)),
      )
