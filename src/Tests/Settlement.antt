-- ===== src/Tests/Settlement.antt =====
-- Streams and what they cost.
use chenni_x_api.Prelude.Int.{pos}
use chenni_x_api.Prelude.{
  ℕ, ◌≡◌, refl, String, ◌⊎◌, inr, Bool, true, false, Option, none, some, List, [], ◌∷◌, ◌++◌, map,
}
use chenni_x_api.Common.Text.{lines}
use chenni_x_api.Common.Types.{Usage, openai_compatible, per_call, ChannelModelPricing}
use chenni_x_api.Common.Errors.{ProxyError}
use chenni_x_api.Json.{Json, integer, object, no_members, member}
use chenni_x_api.Storage.Ledger.{Db}
use chenni_x_api.Router.{RoutedKey}
use chenni_x_api.Executor.Attempts.{World}
use chenni_x_api.Adaptor.Usage.{add, extract_usage}
use chenni_x_api.Routes.{passthrough}
use chenni_x_api.Routes.Sse.{cut, feed, feed_all}
use chenni_x_api.Routes.Splits.{joined, feed_all-joined, feed_drains}
use chenni_x_api.Routes.Stream.{utf8, chunk, broken, raw, Upstream, Pump, start, count_chunk, pump}
use chenni_x_api.Routes.Settlement.{passthrough_forwards}
use chenni_x_api.Routes.Readings.{count_all}
use chenni_x_api.Routes.Metering.{count_chunk_by_cut}
use chenni_x_api.Tests.Billing.{db_with}
use chenni_x_api.Tests.Routing.{channel_of, key_of}
use chenni_x_api.Tests.Executor

-- One event in three chunks, one of which is no UTF-8.
abbrev pieces : List (Option String)
pieces = some "event: ping\nda" ∷ none ∷ some "ta: {}\n" ∷ some "\nd" ∷ []

one_event : feed_all pieces "" ≡ (("ping", "{}") ∷ [], "d")
unfolding feed_all
one_event = refl

feed_all-joined_example : feed_all pieces "" ≡ feed (some (joined pieces)) ""
feed_all-joined_example = feed_all-joined pieces

feed_drains_example : cut (feed (some "data: x\n\nda") "").1 ≡ none
feed_drains_example = feed_drains "data: x\n\nda" ""

abbrev prints : ProxyError → String
prints _ = "error"

-- A line's usage has the numbers 3 and 4.
abbrev counts : Json
counts = object (
    member "usage"
      (object (
        member "prompt_tokens" (integer 3)
          (member "completion_tokens" (integer 4) (member "total_tokens" (integer 7) no_members))))
      no_members)

abbrev reads : String → String ⊎ Json
reads _ = inr counts

abbrev stays : ℕ → Bool
stays _ = false

abbrev leaves : ℕ → Bool
leaves _ = true

abbrev seven : Usage
seven = record { prompt_tokens = 3; completion_tokens = 4; total_tokens = 7 }

passthrough_forwards_example :
    (let q =
        pump stays prints reads openai_compatible passthrough
          (map chunk (utf8 "data: {}\n" ∷ utf8 "\n" ∷ []))
          (start 0) in
      (q.received ≡ [] ++ map raw (utf8 "data: {}\n" ∷ utf8 "\n" ∷ []))
      × (q.usage_acc
          ≡ count_all stays prints reads openai_compatible
              (map chunk (utf8 "data: {}\n" ∷ utf8 "\n" ∷ []))
              (start 0).usage_acc))
unfolding start
passthrough_forwards_example =
    passthrough_forwards stays prints reads (λ _. refl) openai_compatible
      (utf8 "data: {}\n" ∷ utf8 "\n" ∷ []) (start 0)

-- Two usages in two chunks count 14 tokens, and in one chunk 7.
count_chunk_by_cut_example :
    (count_chunk stays prints reads openai_compatible
        (utf8 "data: b\n")
        (count_chunk stays prints reads openai_compatible (utf8 "data: a\n") seven)
      ≡ add (add seven seven) seven)
    × (count_chunk stays prints reads openai_compatible (utf8 "data: a\ndata: b\n") seven
        ≡ add seven seven)
unfolding extract_usage lines
count_chunk_by_cut_example =
    count_chunk_by_cut stays prints reads "data: a\n" "data: b\n" "data: a\ndata: b\n" seven seven
      seven refl refl refl

abbrev routed : RoutedKey
routed = record {
  channel = channel_of 1 "vip";
  key = key_of 11 1 1;
  upstream_model_name = "gpt-4o";
  binding_priority = pos 1;
  weight = pos 1;
}

abbrev price : Option ChannelModelPricing
price = some record {
  billing_type = per_call;
  input_price = 0;
  output_price = 0;
  call_price = 7;
  billing_expr = none;
}

-- A chunk with a usage, and then the connection breaks; the client is gone at once.
abbrev stream : List Upstream
stream = chunk (utf8 "data: {}\n") ∷ broken "reset" ∷ []

abbrev opened : World Db ℕ
opened = record Executor.start { ledger = db_with 100 400 1 }

abbrev ended : Pump
ended = pump leaves prints reads openai_compatible passthrough stream (start 0)
