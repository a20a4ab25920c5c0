-- ===== src/Translator/Parts.antt =====
-- crates/translator/src/o2c.rs and c2o.rs: what the four translations share.
use chenni_x_api.Prelude.Tests.{if◌then◌else◌}
use chenni_x_api.Prelude.{
  String, str_eq, ◌<>◌, Bool, false, Option, none, some, ◌⊎◌, inl, inr, List, [], ◌∷◌, ◌++◌,
}
use chenni_x_api.Json.{
  Json, bool, string, object, Items, no_items, item, Members, no_members, member, get_field,
  text_of,
}

-- `get(name).cloned().unwrap_or(default)`
abbrev pub or_default : Option Json → Json → Json
or_default none d = d
or_default (some v) d = v

unfoldable pub field_or : String → Json → Json → Json
unfolding get_field
field_or name d v = or_default (get_field name v) d

abbrev pub empty_object : Json
empty_object = object no_members

abbrev pub empty_text : Json
empty_text = string ""

-- `as_bool`.
abbrev pub as_bool : Option Json → Option Bool
as_bool (some (bool b)) = some b
as_bool _ = none

abbrev pub to_items : List Json → Items
to_items [] = no_items
to_items (v ∷ vs) = item v (to_items vs)

abbrev pub map_items : (Json → Json) → Items → List Json
map_items f no_items = []
map_items f (item v vs) = f v ∷ map_items f vs

-- `get("type").and_then(|t| t.as_str()) == Some(name)`
abbrev same_text : Option String → String → Bool
same_text none name = false
same_text (some t) name = str_eq t name

unfoldable pub has_type : String → Json → Bool
unfolding get_field text_of
has_type name v = same_text (text_of (get_field "type" v)) name

abbrev pub to_list : Option String → List String
to_list none = []
to_list (some s) = s ∷ []

-- The texts of the blocks of type text.
unfoldable pub texts_of : Items → List String
unfolding has_type get_field text_of
texts_of no_items = []
texts_of (item b bs) =
    if has_type "text" b then to_list (text_of (get_field "text" b)) ++ texts_of bs else texts_of bs

-- `join("")`.
abbrev pub concat : List String → String
concat [] = ""
concat (s ∷ ss) = s <> concat ss

abbrev pub text_block : String → Json
text_block t = object (member "type" (string "text") (member "text" (string t) no_members))

-- A member that is there only where it has a value.
abbrev pub optional : String → Option Json → Members → Members
optional name none ms = ms
optional name (some v) ms = member name v ms

-- `from_str(..).unwrap_or(json!({}))`
abbrev pub parsed_or_empty : String ⊎ Json → Json
parsed_or_empty (inl e) = empty_object
parsed_or_empty (inr v) = v

abbrev pub some_text : Option String → String → String
some_text none d = d
some_text (some s) d = s

-- An OpenAI tool call as a `tool_use` block; its arguments are the text of a JSON value.
module _ (from_str : String → String ⊎ Json) where
  unfoldable pub tool_use_block : Json → Json
  unfolding field_or get_field text_of
  tool_use_block tc =
      let function = field_or "function" empty_object tc in
      let input =
        parsed_or_empty (from_str (some_text (text_of (get_field "arguments" function)) "{}")) in
      object (
        member "type" (string "tool_use") (
          member "id" (field_or "id" empty_text tc) (
            member "name" (field_or "name" empty_text function) (member "input" input no_members))))

-- A `tool_use` block as an OpenAI tool call.
module _ (to_text : Json → String) where
  unfoldable pub tool_call_of : Json → Json
  unfolding field_or
  tool_call_of block =
      let function =
        member "name" (field_or "name" empty_text block) (
          member "arguments" (string (to_text (field_or "input" empty_object block))) no_members) in
      object (
        member "id" (field_or "id" empty_text block)
          (member "type" (string "function") (member "function" (object function) no_members)))
