-- ===== src/Adaptor/Requests.antt =====
-- crates/adaptor/src/openai.rs and claude.rs, `execute` and `execute_stream`. The HTTP client is a
-- parameter.
use chenni_x_api.Prelude.Tests.{leb, if◌then◌else◌}
use chenni_x_api.Prelude.{ℕ, String, str_eq, ◌<>◌, true, Option, some, ◌⊎◌, inl, inr, List, [], ◌∷◌}
use chenni_x_api.Common.Errors.{upstream, config, bad_header, http}
use chenni_x_api.Common.Results.{ProxyResult, ok, err}
use chenni_x_api.Json.{Json, bool, object, no_members, member, get_field, put_member}
use chenni_x_api.Adaptor.Urls.{build_openai_chat_url, build_claude_messages_url}

abbrev pub Headers : Type 0
Headers = List (String × String)

-- `insert`, on the map as pairs.
unfoldable pub put_header : String → String → Headers → Headers
put_header k v [] = (k, v) ∷ []
put_header k v ((j, w) ∷ hs) = if str_eq j k then (k, v) ∷ hs else (j, w) ∷ put_header k v hs

pub record HttpRequest : Type 0 where
  pub url : String
  pub headers : Headers
  pub body : Json

unfoldable pub openai_headers : String → Headers → Headers
unfolding put_header
openai_headers api_key hs =
    put_header "Content-Type" "application/json"
      (put_header "Authorization" ("Bearer " <> api_key) hs)

unfoldable pub claude_headers : String → Headers → Headers
unfolding put_header
claude_headers api_key hs =
    put_header "Content-Type" "application/json"
      (put_header "anthropic-version" "2023-06-01" (put_header "x-api-key" api_key hs))

include_usage : Json
include_usage = object (member "include_usage" (bool true) no_members)

-- `body["stream_options"] = ..` on a body that has a `stream` member, and so is an object.
unfoldable pub ask_usage : Option Json → Json → Json
unfolding put_member include_usage
ask_usage (some (bool true)) (object ms) = object (put_member "stream_options" include_usage ms)
ask_usage _ body = body

unfoldable pub stream_body : Json → Json
unfolding ask_usage get_field
stream_body body = ask_usage (get_field "stream" body) body

-- `header_map` checks names and values and gives the text of its error; `post` sends a request and
-- gives an error's text, or the status and the body.
module _ (header_map : Headers → String ⊎ Headers)
    (post : HttpRequest → String ⊎ (ℕ × String)) where
  unfoldable pub checked : ℕ × String → ProxyResult (ℕ × String)
  checked (status, body) = if leb 400 status then err (upstream status body) else ok (status, body)

  unfoldable pub received : String ⊎ (ℕ × String) → ProxyResult (ℕ × String)
  unfolding checked
  received (inl e) = err (http e)
  received (inr answer) = checked answer

  unfoldable pub send_with : String → Json → String ⊎ Headers → ProxyResult (ℕ × String)
  unfolding received
  send_with url body (inl e) = err (config (bad_header e))
  send_with url body (inr hs) = received (post record { url = url; headers = hs; body = body })

  unfoldable pub openai_execute : String → String → Json → Headers → ProxyResult (ℕ × String)
  unfolding send_with openai_headers build_openai_chat_url
  openai_execute base_url api_key body headers =
      send_with (build_openai_chat_url base_url) body (header_map (openai_headers api_key headers))

  -- The answer of a stream is its status here, and the chunks that follow are not read yet.
  unfoldable pub openai_execute_stream : String → String → Json → Headers → ProxyResult (ℕ × String)
  unfolding send_with openai_headers stream_body build_openai_chat_url
  openai_execute_stream base_url api_key body headers =
      send_with (build_openai_chat_url base_url) (stream_body body)
        (header_map (openai_headers api_key headers))

  unfoldable pub claude_execute : String → String → Json → Headers → ProxyResult (ℕ × String)
  unfolding send_with claude_headers build_claude_messages_url
  claude_execute base_url api_key body headers =
      send_with (build_claude_messages_url base_url) body
        (header_map (claude_headers api_key headers))

  unfoldable pub claude_execute_stream : String → String → Json → Headers → ProxyResult (ℕ × String)
  unfolding send_with claude_headers build_claude_messages_url
  claude_execute_stream base_url api_key body headers =
      send_with (build_claude_messages_url base_url) body
        (header_map (claude_headers api_key headers))
