-- ===== src/Routes/Counting.antt =====
-- crates/server/src/routes/mod.rs, `stream_sse_response`: what is counted of a
-- stream, and how far it is read.
use chenni_x_api.Prelude.Tests.{if◌then◌else◌}
use chenni_x_api.Prelude.{
  ℕ, ◌≡◌, refl, subst, ap, sym, ◌∙◌, ◌⊎◌, inl, inr, String, Bool, true, false, List, [], ◌∷◌, ◌++◌,
  map, arith,
}
use chenni_x_api.Common.Types.{Usage, ChannelProvider}
use chenni_x_api.Common.Errors.{ProxyError}
use chenni_x_api.Common.Results.{ProxyResult, ok, err}
use chenni_x_api.Json.{Json}
use chenni_x_api.Stream.ToClaude.{Event, StreamState}
use chenni_x_api.Stream.ToOpenai.{Chunk, OaiState}
use chenni_x_api.Stream.Events.{process_event}
use chenni_x_api.Routes.{StreamTranslator, openai_to_claude, claude_to_openai, passthrough}
use chenni_x_api.Routes.Sse.{Frame, feed}
use chenni_x_api.Routes.Readings.{
  AllSummed, readings, count_all, count_all-append, count_all-AllSummed,
}
use chenni_x_api.Routes.Stream.{
  Bytes, Upstream, chunk, broken, Sent, raw, failed, openai_chunk, event, Pump, text_of_bytes, send,
  send_each, o2c_chunk, forward_events, forward_chunks, forward_frames, forward, pump_step, pump,
  start,
}

module _ (gone : ℕ → Bool) (display : ProxyError → String) (from_str : String → String ⊎ Json) where
  send-usage : (x : Sent) (p : Pump) → (send gone display from_str x p).1.usage_acc ≡ p.usage_acc
  unfolding send
  send-usage x p = ground arith

  send_each-usage :
      (xs : List Sent) (p : Pump) → (send_each gone display from_str xs p).usage_acc ≡ p.usage_acc
  unfolding send_each
  send_each-usage [] p = refl
  send_each-usage (x ∷ xs) p =
      ground (arith, send-usage x p, send_each-usage xs (send gone display from_str x p).1)

  events-usage :
      (r : ProxyResult (List Event) × StreamState) (p : Pump)
      → (forward_events gone display from_str r p).1.usage_acc ≡ p.usage_acc
  unfolding forward_events
  events-usage (ok es, s) p = send_each-usage (map event es) record p { o2c = s }
  events-usage (err e, s) p = send-usage (failed (display e)) record p { o2c = s }

  chunks-usage :
      (r : ProxyResult (List Chunk) × OaiState) (later : Pump → Pump) (p : Pump)
      → ((q : Pump) → (later q).usage_acc ≡ q.usage_acc)
      → (forward_chunks gone display from_str r later p).usage_acc ≡ p.usage_acc
  unfolding forward_chunks
  chunks-usage (ok cs, s) later p h =
      h _ ∙ send_each-usage (map openai_chunk cs) record p { c2o = s }
  chunks-usage (err e, s) later p h = send-usage (failed (display e)) record p { c2o = s }

  frames-usage :
      (fs : List Frame) (p : Pump)
      → (forward_frames gone display from_str fs p).usage_acc ≡ p.usage_acc
  unfolding forward_frames
  frames-usage [] p = refl
  frames-usage ((event_type, frame_data) ∷ fs) p =
      chunks-usage (process_event from_str event_type frame_data p.c2o)
        (forward_frames gone display from_str fs) p (frames-usage fs)

  forward-usage :
      (tr : StreamTranslator) (b : Bytes) (p : Pump)
      → (forward gone display from_str tr b p).1.usage_acc ≡ p.usage_acc
  unfolding forward
  forward-usage openai_to_claude b p = events-usage (o2c_chunk gone display from_str b p.o2c) p
  forward-usage claude_to_openai b p =
      let (frames, left) = feed (text_of_bytes b) p.buffer in
      frames-usage frames record p { buffer = left }
  forward-usage passthrough b p = send-usage (raw b) p

  step-usage :
      (provider : ChannelProvider) (tr : StreamTranslator) (u : Upstream) (p : Pump)
      → (pump_step gone display from_str provider tr u p).1.usage_acc
        ≡ count_all gone display from_str provider (u ∷ []) p.usage_acc
  unfolding pump_step
  step-usage provider tr (chunk b) p = forward-usage tr b _
  step-usage provider tr (broken e) p = send-usage (failed e) p

  -- Why the loop ends at a chunk: a broken connection, a failed translation, or, without a
  -- translation, a client that is gone.
  abbrev pub Ends : StreamTranslator → Upstream → Pump → Type 0
  Ends tr (broken e) p = Unit {0}
  Ends openai_to_claude (chunk b) p =
      (e : ProxyError) × ((o2c_chunk gone display from_str b p.o2c).0 ≡ err e)
  Ends claude_to_openai (chunk b) p = ⊥
  Ends passthrough (chunk b) p = gone p.sends ≡ true

  -- All of the stream is read, or the loop ended at the last chunk that was read.
  abbrev pub ReadUpTo : StreamTranslator → List Upstream → List Upstream → Type 0
  ReadUpTo tr read left =
      (left ≡ [])
      ⊎ ((before : List Upstream) × (last : Upstream) × (p : Pump) × (read ≡ before ++ last ∷ [])
          × Ends tr last p)

  events-Ends :
      (r : ProxyResult (List Event) × StreamState) (p : Pump)
      → (forward_events gone display from_str r p).0 ≡ true
      → (e : ProxyError) × (r.0 ≡ err e)
  unfolding forward_events
  events-Ends (ok es, s) p h = absurd (cc)
  events-Ends (err e, s) p h = (e, refl)

  forward-Ends :
      (tr : StreamTranslator) (b : Bytes) (p : Pump)
      → (forward gone display from_str tr b p).0 ≡ true
      → Ends tr (chunk b) p
  unfolding forward send
  forward-Ends openai_to_claude b p h = events-Ends (o2c_chunk gone display from_str b p.o2c) p h
  forward-Ends claude_to_openai b p h = absurd (cc)
  forward-Ends passthrough b p h = ground (arith, h)

  step-Ends :
      (provider : ChannelProvider) (tr : StreamTranslator) (u : Upstream) (p : Pump)
      → (pump_step gone display from_str provider tr u p).0 ≡ true
      → (q : Pump) × Ends tr u q
  unfolding pump_step
  step-Ends provider tr (chunk b) p h = (_, forward-Ends tr b _ h)
  step-Ends provider tr (broken e) p h = (p, tt)

  ReadUpTo-more :
      (tr : StreamTranslator) (u : Upstream) (read left : List Upstream)
      → ReadUpTo tr read left
      → ReadUpTo tr (u ∷ read) left
  ReadUpTo-more tr u read left (inl e) = inl e
  ReadUpTo-more tr u read left (inr (before, last, p, e, ends)) =
      inr (u ∷ before, last, p, ap (λ us. u ∷ us) e, ends)

  -- What was read, up to the end of the loop, is counted.
  abbrev pub Counts : ChannelProvider → StreamTranslator → List Upstream → Usage → Usage → Type 0
  Counts provider tr us acc found =
      (read : List Upstream) × (left : List Upstream) × (us ≡ read ++ left)
      × ReadUpTo tr read left
      × (found ≡ count_all gone display from_str provider read acc)

  pump-Counts :
      (provider : ChannelProvider) (tr : StreamTranslator) (us : List Upstream) (p : Pump)
      → Counts provider tr us p.usage_acc (pump gone display from_str provider tr us p).usage_acc
  unfolding pump
  pump-Counts provider tr [] p = ([], [], refl, inl refl, refl)
  pump-Counts provider tr (u ∷ us) p =
      ended (pump_step gone display from_str provider tr u p) (step-usage provider tr u p)
        (step-Ends provider tr u p)
        (pump-Counts provider tr us (pump_step gone display from_str provider tr u p).1)
    where
      ended :
          (r : Bool × Pump)
          → r.1.usage_acc ≡ count_all gone display from_str provider (u ∷ []) p.usage_acc
          → (r.0 ≡ true → (q : Pump) × Ends tr u q)
          → Counts provider tr us r.1.usage_acc
              (pump gone display from_str provider tr us r.1).usage_acc
          → Counts provider tr
              (u ∷ us)
              p.usage_acc
              (if r.0 then r.1 else pump gone display from_str provider tr us r.1).usage_acc
      ended (true, q) h why k =
          let (p', ends) = why refl in (u ∷ [], us, refl, inr ([], u, p', refl, ends), h)
      ended (false, q) h why (read, left, cut, upto, found) = (
        u ∷ read,
        left,
        ap (λ xs. u ∷ xs) cut,
        ReadUpTo-more tr u read left upto,
        found
            ∙ ap (count_all gone display from_str provider read) h
            ∙ sym (count_all-append gone display from_str provider (u ∷ []) read p.usage_acc),
      )

  -- The counters are the sums of the usages in what was read.
  abbrev pub Meters : ChannelProvider → StreamTranslator → List Upstream → Usage → Type 0
  Meters provider tr us found =
      (read : List Upstream) × (left : List Upstream) × (us ≡ read ++ left)
      × ReadUpTo tr read left
      × AllSummed record { prompt_tokens = 0; completion_tokens = 0; total_tokens = 0 }
          (readings gone display from_str provider read) found

  pub pump-Meters :
      (provider : ChannelProvider) (tr : StreamTranslator) (us : List Upstream) (now : ℕ)
      → Meters provider tr us (pump gone display from_str provider tr us (start now)).usage_acc
  unfolding start
  pump-Meters provider tr us now =
      let (read, left, cut, upto, found) = pump-Counts provider tr us (start now) in
      (
        read,
        left,
        cut,
        upto,
        subst (AllSummed _ (readings gone display from_str provider read)) (sym found) (
            count_all-AllSummed gone display from_str provider read _
              (omega arith, omega arith, omega arith)),
      )
