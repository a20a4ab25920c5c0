-- ===== src/Routes/Settlement.antt =====
-- crates/server/src/routes/mod.rs, `stream_sse_response`: what a stream is billed.
use chenni_x_api.Prelude.{
  ℕ, suc, ◌≡◌, refl, sym, ◌∙◌, ◌⊎◌, String, Bool, false, List, [], ◌∷◌, ◌++◌, map,
}
use chenni_x_api.Common.Types.{ChannelProvider}
use chenni_x_api.Common.Errors.{ProxyError}
use chenni_x_api.Json.{Json}
use mathlib.Core.List.{append-nil, append_assoc}
use chenni_x_api.Billing.Contract.{Contract}
use chenni_x_api.Routes.{passthrough}
use chenni_x_api.Routes.Readings.{count_all}
use chenni_x_api.Routes.Stream.{
  Bytes, chunk, raw, Pump, send, forward, count_chunk, pump_step, pump,
}

-- A client that stays, and a stream in its own format.
module _ (gone : ℕ → Bool) (display : ProxyError → String) (from_str : String → String ⊎ Json)
    (stays : (n : ℕ) → gone n ≡ false) where
  sent_raw :
      (provider : ChannelProvider) (b : Bytes) (p : Pump)
      → pump_step gone display from_str provider passthrough (chunk b) p ≡ (
        false,
        record p {
          usage_acc = count_chunk gone display from_str provider b p.usage_acc;
          sends = suc p.sends;
          received = p.received ++ raw b ∷ [];
        },
      )
  unfolding pump_step forward send
  sent_raw provider b p = rw (stays p.sends)

  -- A stream of chunks that needs no translation, to a client that stays, is forwarded whole and in
  -- order, and every chunk's usage is counted.
  pub passthrough_forwards :
      (provider : ChannelProvider) (bs : List Bytes) (p : Pump)
      → (let q = pump gone display from_str provider passthrough (map chunk bs) p in
          (q.received ≡ p.received ++ map raw bs)
          × (q.usage_acc ≡ count_all gone display from_str provider (map chunk bs) p.usage_acc))
  unfolding pump
  passthrough_forwards provider [] p = (sym (append-nil p.received), refl)
  passthrough_forwards provider (b ∷ bs) p =
      let q : Pump = record p {
        usage_acc = count_chunk gone display from_str provider b p.usage_acc;
        sends = suc p.sends;
        received = p.received ++ raw b ∷ [];
      } in
      let later = passthrough_forwards provider bs q in
      rw (sent_raw provider b p)
        (later.0 ∙ append_assoc p.received (raw b ∷ []) (map raw bs), later.1)
