-- ===== src/Adaptor/Usage.antt =====
-- crates/adaptor/src/openai.rs and claude.rs, `extract_usage`, on the text of a chunk.
use chenni_x_api.Prelude.Tests.{if◌then◌else◌}
use chenni_x_api.Prelude.{
  ℕ, ◌+◌, ◌%◌, String, str_eq, Option, none, some, ◌⊎◌, inl, inr, List, [], ◌∷◌,
}
use chenni_x_api.Common.Text.{trim, lines, strip_prefix}
use chenni_x_api.Common.Types.{Usage, ChannelProvider, openai_compatible, anthropic}
use chenni_x_api.Json.{Json, null, get_field, field_of, as_u64, count_at}
use chenni_x_api.Translator.Parts.{has_type}

abbrev pub u64_mod : ℕ
u64_mod = 18_446_744_073_709_551_616

-- `Usage::add`: the sums of `u64` wrap, as in a release build.
unfoldable pub add : Usage → Usage → Usage
add u v = record {
  prompt_tokens = (u.prompt_tokens + v.prompt_tokens) % u64_mod;
  completion_tokens = (u.completion_tokens + v.completion_tokens) % u64_mod;
  total_tokens = (u.total_tokens + v.total_tokens) % u64_mod;
}

unfoldable pub openai_counts : Option Json → Option Usage
unfolding count_at
openai_counts none = none
openai_counts (some null) = none
openai_counts (some u) = some record {
  prompt_tokens = count_at "prompt_tokens" (some u);
  completion_tokens = count_at "completion_tokens" (some u);
  total_tokens = count_at "total_tokens" (some u);
}

-- The last one that is there.
abbrev pub last_some : Option Usage → Option Usage → Option Usage
last_some found none = found
last_some found (some u) = some u

-- The counts of a Claude stream, as far as they are known.
abbrev pub Known : Type 0
Known = Option ℕ × Option ℕ

number_at : String → Json → Option ℕ
unfolding get_field as_u64
number_at name u = elim (get_field name u) [ none ↦ none | some n ↦ as_u64 n ]

output_of : Option Json → Option ℕ → Option ℕ
unfolding number_at
output_of none known = known
output_of (some usage) known = number_at "output_tokens" usage

input_of : Option Json → Option ℕ → Option ℕ
unfolding number_at
input_of none known = known
input_of (some usage) known = number_at "input_tokens" usage

unfoldable pub read_known : Json → Known → Known
unfolding has_type output_of input_of get_field field_of
read_known v (input, output) = (
  if has_type "message_start" v
      then input_of (field_of "usage" (get_field "message" v)) input
      else input,
  if has_type "message_delta" v then output_of (get_field "usage" v) output else output,
)

abbrev zero_if_none : Option ℕ → ℕ
zero_if_none none = 0
zero_if_none (some n) = n

unfoldable pub known_usage : Known → Option Usage
known_usage (none, none) = none
known_usage (input, output) = some record {
  prompt_tokens = zero_if_none input;
  completion_tokens = zero_if_none output;
  total_tokens = (zero_if_none input + zero_if_none output) % u64_mod;
}

module _ (from_str : String → String ⊎ Json) where
  abbrev parsed : String ⊎ Json → Option Json
  parsed (inl e) = none
  parsed (inr v) = some v

  -- The JSON of a line, which starts with `data: `.
  unfoldable pub line_json : Option String → Option Json
  line_json none = none
  line_json (some json_str) = parsed (from_str json_str)

  unfoldable pub openai_json : Option String → Option Json
  unfolding line_json trim
  openai_json none = none
  openai_json (some json_str) =
      if str_eq (trim json_str) "[DONE]" then none else line_json (some json_str)

  unfoldable pub openai_line : String → Option Usage
  unfolding openai_counts openai_json strip_prefix field_of
  openai_line line = openai_counts (field_of "usage" (openai_json (strip_prefix "data: " line)))

  unfoldable pub openai_lines : List String → Option Usage → Option Usage
  unfolding openai_line
  openai_lines [] found = found
  openai_lines (l ∷ ls) found = openai_lines ls (last_some found (openai_line l))

  unfoldable pub claude_line : Option Json → Known → Known
  unfolding read_known
  claude_line none known = known
  claude_line (some v) known = read_known v known

  unfoldable pub claude_lines : List String → Known → Known
  unfolding claude_line line_json strip_prefix
  claude_lines [] known = known
  claude_lines (l ∷ ls) known =
      claude_lines ls (claude_line (line_json (strip_prefix "data: " l)) known)

  unfoldable pub openai_extract_usage : String → Option Usage
  unfolding openai_lines lines
  openai_extract_usage text = openai_lines (lines text) none

  unfoldable pub claude_extract_usage : String → Option Usage
  unfolding claude_lines known_usage lines
  claude_extract_usage text = known_usage (claude_lines (lines text) (none, none))

  unfoldable pub extract_usage : ChannelProvider → String → Option Usage
  unfolding openai_extract_usage claude_extract_usage
  extract_usage openai_compatible text = openai_extract_usage text
  extract_usage anthropic text = claude_extract_usage text
