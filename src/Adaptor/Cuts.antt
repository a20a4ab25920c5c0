-- ===== src/Adaptor/Cuts.antt =====
-- crates/adaptor/src/openai.rs, `extract_usage`: what a chunk counts depends on where it is cut.
use chenni_x_api.Prelude.{
  ◌≡◌, refl, ap, sym, ◌∙◌, String, ◌⊎◌, Option, none, some, List, [], ◌∷◌, ◌++◌,
}
use chenni_x_api.Common.Text.{lines}
use chenni_x_api.Common.Types.{Usage, openai_compatible}
use chenni_x_api.Json.{Json}
use chenni_x_api.Adaptor.Usage.{
  last_some, openai_line, openai_lines, openai_extract_usage, extract_usage,
}

module _ (from_str : String → String ⊎ Json) where
  lines-append :
      (ls ms : List String) (found : Option Usage)
      → openai_lines from_str (ls ++ ms) found
        ≡ openai_lines from_str ms (openai_lines from_str ls found)
  unfolding openai_lines
  lines-append [] ms found = refl
  lines-append (l ∷ ls) ms found = lines-append ls ms _

  last_some_assoc :
      (a b c : Option Usage) → last_some (last_some a b) c ≡ last_some a (last_some b c)
  last_some_assoc a b none = refl
  last_some_assoc a b (some u) = refl

  last_some-none : (o : Option Usage) → last_some none o ≡ o
  last_some-none none = refl
  last_some-none (some u) = refl

  lines-from :
      (ls : List String) (found : Option Usage)
      → openai_lines from_str ls found ≡ last_some found (openai_lines from_str ls none)
  unfolding openai_lines
  lines-from [] found = refl
  lines-from (l ∷ ls) found =
      lines-from ls (last_some found (openai_line from_str l))
      ∙ last_some_assoc found (openai_line from_str l) (openai_lines from_str ls none)
      ∙ ap (last_some found) (
          sym (
            lines-from ls (last_some none (openai_line from_str l))
            ∙ ap (λ o. last_some o (openai_lines from_str ls none))
                (last_some-none (openai_line from_str l))))

  -- A chunk with the lines of two chunks counts the usage of the last of these that has one, and so
  -- only the second's where both have one.
  pub extract_usage_together :
      (a b c : String)
      → lines c ≡ lines a ++ lines b
      → extract_usage from_str openai_compatible c
        ≡ last_some
            (extract_usage from_str openai_compatible a)
            (extract_usage from_str openai_compatible b)
  unfolding extract_usage openai_extract_usage
  extract_usage_together a b c h =
      ap (λ ls. openai_lines from_str ls none) h
      ∙ lines-append (lines a) (lines b) none
      ∙ lines-from (lines b) (openai_lines from_str (lines a) none)
