-- ===== src/Routes/Stream.antt =====
-- crates/server/src/routes/mod.rs, `stream_sse_response`: the task that forwards a stream, and then
-- bills it. The rows of the audit log are not modelled.
use chenni_x_api.Prelude.Int.{ℤ}
use chenni_x_api.Prelude.Tests.{if◌then◌else◌}
use chenni_x_api.Prelude.{
  ℕ, suc, String, ◌<>◌, Bool, true, false, ◌⊎◌, Option, none, some, List, [], ◌∷◌, ◌++◌, map,
}
use chenni_x_api.Common.Types.{Usage, ChannelProvider, ChannelModelPricing}
use chenni_x_api.Common.Errors.{ProxyError, translator}
use chenni_x_api.Common.Results.{ProxyResult, ok, err}
use chenni_x_api.Json.{Json}
use chenni_x_api.Billing.{BillingSession}
use chenni_x_api.Router.{RoutedKey}
use chenni_x_api.Executor.{EntryFormat, ExecutionContext}
use chenni_x_api.Executor.Costs.{actual_cost}
use chenni_x_api.Executor.Attempts.{Outside, World}
use chenni_x_api.Executor.Run.{Setting}
use chenni_x_api.Executor.Serve.{Answer, book}
use chenni_x_api.Stream.ToClaude.{Event, StreamState}
use chenni_x_api.Stream.ToClaude
use chenni_x_api.Stream.Chunks.{process_chunk}
use chenni_x_api.Stream.ToOpenai.{Chunk, OaiState, new_at}
use chenni_x_api.Stream.Events.{process_event}
use chenni_x_api.Adaptor.Usage.{add, extract_usage}
use chenni_x_api.Routes.{
  StreamTranslator, openai_to_claude, claude_to_openai, passthrough, stream_translator,
}
use chenni_x_api.Routes.Sse.{Frame, feed}

-- A chunk: a text, or a lossy reading of bytes that are none and the text of the error.
pub data Bytes : Type 0 where
  utf8 : String → Bytes
  not_utf8 : String → String → Bytes

-- `String::from_utf8_lossy` and `from_utf8`.
abbrev pub lossy : Bytes → String
lossy (utf8 t) = t
lossy (not_utf8 t e) = t

abbrev pub text_of_bytes : Bytes → Option String
text_of_bytes (utf8 t) = some t
text_of_bytes (not_utf8 t e) = none

-- What the upstream's stream gives: a chunk, or an error's text.
pub data Upstream : Type 0 where
  chunk : Bytes → Upstream
  broken : String → Upstream

-- What is sent to the client.
pub data Sent : Type 0 where
  raw : Bytes → Sent
  event : Event → Sent
  openai_chunk : Chunk → Sent
  failed : String → Sent

-- The variables of the task, what the client got, and how often it was sent to.
pub record Pump : Type 0 where
  pub usage_acc : Usage
  pub o2c : StreamState
  pub c2o : OaiState
  pub buffer : String
  pub received : List Sent
  pub sends : ℕ

unfoldable pub start : ℕ → Pump
unfolding ToClaude.new new_at
start now = record {
  usage_acc = record { prompt_tokens = 0; completion_tokens = 0; total_tokens = 0 };
  o2c = ToClaude.new;
  c2o = new_at now;
  buffer = "";
  received = [];
  sends = 0;
}

-- `gone n` says whether the client is gone at the n-th sending; `display` prints an error.
module _ (gone : ℕ → Bool) (display : ProxyError → String) (from_str : String → String ⊎ Json) where
  -- Whether the sending failed.
  unfoldable pub send : Sent → Pump → Bool × Pump
  send x p =
      let counted = record p { sends = suc p.sends } in
      if gone p.sends
      then (true, counted)
      else (false, record counted { received = p.received ++ x ∷ [] })

  -- The inner loops, which a failed sending breaks.
  unfoldable pub send_each : List Sent → Pump → Pump
  unfolding send
  send_each [] p = p
  send_each (x ∷ xs) p =
      let (lost, p') = send x p in let rest = send_each xs p' in if lost then p' else rest

  unfoldable pub o2c_chunk : Bytes → StreamState → ProxyResult (List Event) × StreamState
  unfolding process_chunk
  o2c_chunk (utf8 t) s = process_chunk from_str t s
  o2c_chunk (not_utf8 t e) s = (err (translator ("invalid utf8 in SSE chunk: " <> e)), s)

  -- Each branch says whether the outer loop breaks.
  unfoldable pub forward_events : ProxyResult (List Event) × StreamState → Pump → Bool × Pump
  unfolding send_each send
  forward_events (ok es, s) p = (false, send_each (map event es) record p { o2c = s })
  forward_events (err e, s) p = (true, (send (failed (display e)) record p { o2c = s }).1)

  -- An error breaks the loop over the frames, and not the outer one.
  unfoldable pub forward_chunks : ProxyResult (List Chunk) × OaiState → (Pump → Pump) → Pump → Pump
  unfolding send_each send
  forward_chunks (ok cs, s) later p = later (send_each (map openai_chunk cs) record p { c2o = s })
  forward_chunks (err e, s) later p = (send (failed (display e)) record p { c2o = s }).1

  unfoldable pub forward_frames : List Frame → Pump → Pump
  unfolding forward_chunks process_event
  forward_frames [] p = p
  forward_frames ((event_type, frame_data) ∷ fs) p =
      forward_chunks (process_event from_str event_type frame_data p.c2o) (forward_frames fs) p

  unfoldable pub forward : StreamTranslator → Bytes → Pump → Bool × Pump
  unfolding forward_events o2c_chunk forward_frames feed send
  forward openai_to_claude b p = forward_events (o2c_chunk b p.o2c) p
  forward claude_to_openai b p =
      let (frames, left) = feed (text_of_bytes b) p.buffer in
      (false, forward_frames frames record p { buffer = left })
  forward passthrough b p = send (raw b) p

  unfoldable pub add_some : Option Usage → Usage → Usage
  unfolding add
  add_some none acc = acc
  add_some (some u) acc = add acc u

  -- What a chunk adds, before it is translated.
  unfoldable pub count_chunk : ChannelProvider → Bytes → Usage → Usage
  unfolding extract_usage add_some
  count_chunk provider b acc = add_some (extract_usage from_str provider (lossy b)) acc

  unfoldable pub pump_step : ChannelProvider → StreamTranslator → Upstream → Pump → Bool × Pump
  unfolding forward count_chunk send
  pump_step provider tr (chunk b) p =
      forward tr b record p { usage_acc = count_chunk provider b p.usage_acc }
  pump_step provider tr (broken e) p = (true, (send (failed e) p).1)

  unfoldable pub pump : ChannelProvider → StreamTranslator → List Upstream → Pump → Pump
  unfolding pump_step
  pump provider tr [] p = p
  pump provider tr (u ∷ us) p =
      let (stop, p') = pump_step provider tr u p in
      let rest = pump provider tr us p' in if stop then p' else rest

  -- The whole task: the loop, and then the settlement and the tracking, whose errors are logged.
  module _ {S W : Type 0} (g : Setting) (o : Outside S W Answer) (ctx : ExecutionContext) where
    unfoldable pub stream_cost : Option ChannelModelPricing → Pump → ℤ
    unfolding actual_cost
    stream_cost pricing p = actual_cost g.floats g.evaluate p.usage_acc pricing

    unfoldable pub stream_task :
        EntryFormat
        → ChannelProvider
        → RoutedKey
        → BillingSession
        → Option ChannelModelPricing
        → ℕ
        → List Upstream
        → World S W
        → Pump × World S W
    unfolding pump stream_translator start stream_cost book
    stream_task entry_format adaptor_provider rk session pricing now us w =
        let p =
          pump rk.channel.provider (stream_translator entry_format adaptor_provider) us
            (start now) in
        (p, book g o ctx session rk p.usage_acc (stream_cost pricing p) w)
