-- ===== src/Adaptor/Urls.antt =====
-- crates/adaptor/src/openai.rs, claude.rs and lib.rs: the addresses of the upstreams.
use Prim.Native.Char.{code}
use chenni_x_api.Prelude.Tests.{◌==◌, leb, if◌then◌else◌}
use chenni_x_api.Prelude.{◌≡◌, refl, String, ◌<>◌, Bool, false, ◌&&◌, List, [], ◌∷◌}
use chenni_x_api.Common.Text.{split, trim_end_matches}

-- `rsplit('/').next()`
last_of : List String → String
last_of [] = ""
last_of (w ∷ []) = w
last_of (w ∷ v ∷ ws) = last_of (v ∷ ws)

starts_with_digit : String → Bool
starts_with_digit String.[] = false
starts_with_digit (String.◌∷◌ c s) = leb 48 (code c) && leb (code c) 57

-- A `v` and a digit, such as v1 or v1beta.
unfoldable pub is_version : String → Bool
unfolding starts_with_digit
is_version String.[] = false
is_version (String.◌∷◌ c s) = code c == 118 && starts_with_digit s

unfoldable pub is_versioned : String → Bool
unfolding is_version last_of split
is_versioned trimmed = is_version (last_of (split 47 trimmed))

-- The three builders differ in the path.
unfoldable pub build_url : String → String → String
unfolding is_versioned trim_end_matches
build_url path base_url =
    let trimmed = trim_end_matches 47 base_url in
    if is_versioned trimmed then trimmed <> path else trimmed <> "/v1" <> path

unfoldable pub build_openai_chat_url : String → String
unfolding build_url
build_openai_chat_url = build_url "/chat/completions"

unfoldable pub build_claude_messages_url : String → String
unfolding build_url
build_claude_messages_url = build_url "/messages"

unfoldable pub build_models_url : String → String
unfolding build_url
build_models_url = build_url "/models"

plain_base : build_models_url "https://api.openai.com" ≡ "https://api.openai.com/v1/models"
unfolding build_models_url
plain_base = refl

versioned_base : build_models_url "https://api.openai.com/v1/" ≡ "https://api.openai.com/v1/models"
unfolding build_models_url
versioned_base = refl
