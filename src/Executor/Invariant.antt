-- ===== src/Executor/Invariant.antt =====
-- crates/core/src/executor.rs: what each step of the loops keeps, the loops keep.
use chenni_x_api.Prelude.Tests.{Bool-cases}
use chenni_x_api.Prelude.Lists.{take}
use chenni_x_api.Prelude.{◌++◌, inl, inr, String, some, List, [], ◌∷◌}
use chenni_x_api.Common.Types.{ChannelProvider}
use chenni_x_api.Common.Errors.{ProxyError}
use chenni_x_api.Common.Results.{ProxyResult, ok, err}
use chenni_x_api.Billing.{BillingSession}
use chenni_x_api.Cache.Store.{ConfigCache}
use chenni_x_api.Health.{is_available, mark_disabled}
use chenni_x_api.Router.{RoutedKey}
use chenni_x_api.Json.{Json}
use chenni_x_api.Executor.{
  EntryFormat, ExecutionContext, FailureAction, cool_down, disable, return_to_client, skip_binding,
  classify_failure, status_of, max_binding_attempts, from_last_attempt,
}
use chenni_x_api.Executor.Bodies.{prepare_request}
use chenni_x_api.Executor.Attempts.{
  Reply, timed_out, refused, answered, Outside, World, Progress, nothing_tried, Result, failure,
  Next, continues, breaks, returns, key_name,
}
use chenni_x_api.Executor.Loop.{
  tick, log_failure, cool, refunded, react, take_reply, send_prepared, try_key, try_keys,
  try_bindings, exhausted_failure, run_candidates,
}

-- What the steps of the loops keep.
pub record Kept {S W A : Type 0} (o : Outside S W A) (ctx : ExecutionContext)
    (Inv : World S W → Type 0) : Type 0 where
  pub ticks : (w : World S W) → Inv w → Inv (tick o ctx w)
  pub logs :
      (rk : RoutedKey) (message : String) (w : World S W)
      → Inv w
      → Inv (log_failure o ctx rk message w)
  pub cools : (rk : RoutedKey) (w : World S W) → Inv w → Inv (cool o ctx rk w)
  pub disables :
      (rk : RoutedKey) (w : World S W)
      → Inv w
      → Inv (record w { health = mark_disabled rk.key.id w.health })
  pub pays : (s : S) (w : World S W) → Inv w → Inv (record w { ledger = s })
  pub caches : (c : ConfigCache) (w : World S W) → Inv w → Inv (record w { cache = c })

module _ {S W A R : Type 0} (o : Outside S W A) (ctx : ExecutionContext) (entry : EntryFormat)
    (body : Json) (session : BillingSession)
    (on_answer : RoutedKey → ChannelProvider → List String → A → World S W → Result R × World S W)
    (Inv : World S W → Type 0) (kept : Kept o ctx Inv)
    (served : (rk : RoutedKey) (provider : ChannelProvider) (attempted : List String) (a : A)
        (w : World S W)
      → Inv w
      → Inv (on_answer rk provider attempted a w).1) where
  open kept use {ticks, logs, cools, disables, pays}

  refunded-Inv : (w : World S W) → Inv w → Inv (refunded o ctx session w)
  unfolding refunded
  refunded-Inv w h = pays _ w h

  react-Inv :
      (rk : RoutedKey) (e : ProxyError) (p : Progress) (w : World S W)
      → Inv w
      → Inv (react o ctx entry body session on_answer rk e p w).1
  unfolding react
  react-Inv rk e p w h = by_action (classify_failure o.lower e)
    where
      by_action :
          (action : FailureAction)
          → Inv
              (elim action as (λ _. Next R × World S W) [
                | return_to_client ↦ (
                  returns (failure (from_last_attempt rk p.attempted (status_of e) e)),
                  refunded o ctx session w,
                )
                | disable ↦ (continues p, record w { health = mark_disabled rk.key.id w.health })
                | cool_down ↦ (continues p, cool o ctx rk w)
                | skip_binding ↦ (breaks p, w)
              ]).1
      by_action return_to_client = refunded-Inv w h
      by_action disable = disables rk w h
      by_action cool_down = cools rk w h
      by_action skip_binding = h

  take_reply-Inv :
      (rk : RoutedKey) (provider : ChannelProvider) (p : Progress) (reply : Reply A) (w : World S W)
      → Inv w
      → Inv (take_reply o ctx entry body session on_answer rk provider p reply w).1
  unfolding take_reply
  take_reply-Inv rk provider p timed_out w h = cools rk _ (logs rk _ w h)
  take_reply-Inv rk provider p (answered a) w h = served rk provider p.attempted a w h
  take_reply-Inv rk provider p (refused e) w h = react-Inv rk e _ _ (logs rk (o.display e) w h)

  send_prepared-Inv :
      (rk : RoutedKey) (p : Progress) (req : ProxyResult (Json × ChannelProvider)) (w : World S W)
      → Inv w
      → Inv (send_prepared o ctx entry body session on_answer rk p req w).1
  unfolding send_prepared
  send_prepared-Inv rk p (err e) w h = refunded-Inv w h
  send_prepared-Inv rk p (ok (req, provider)) w h =
      take_reply-Inv rk provider p (o.send w.moment rk req) (tick o ctx w) (ticks w h)

  try_key-Inv :
      (rk : RoutedKey) (p : Progress) (w : World S W)
      → Inv w
      → Inv (try_key o ctx entry body session on_answer rk p w).1
  unfolding try_key
  try_key-Inv rk p w h =
      elim (Bool-cases
        (is_available (o.clock w.moment) w.health rk.key.id rk.upstream_model_name)) [
          | inl b ↦ rw b (
              send_prepared-Inv rk
                (record p { attempted = p.attempted ++ (key_name rk ∷ []); last_tried = some rk })
                (prepare_request o.translators entry body rk.channel rk.upstream_model_name)
                (tick o ctx w) (ticks w h))
          | inr b ↦ rw b (ticks w h)
        ]

  try_keys-Inv :
      (rks : List RoutedKey) (p : Progress) (w : World S W)
      → Inv w
      → Inv (try_keys o ctx entry body session on_answer rks p w).1
  unfolding try_keys
  try_keys-Inv [] p w h = h
  try_keys-Inv (rk ∷ rks) p w h =
      then_keys (try_key o ctx entry body session on_answer rk p w) (try_key-Inv rk p w h)
        (try_keys-Inv rks)
    where
      then_keys :
          (x : Next R × World S W)
          → Inv x.1
          → ((p' : Progress) (w' : World S W)
              → Inv w'
              → Inv (try_keys o ctx entry body session on_answer rks p' w').1)
          → Inv
              (elim x.0 as (λ _. Next R × World S W) [
                | continues p' ↦ try_keys o ctx entry body session on_answer rks p' x.1
                | breaks p' ↦ (breaks p', x.1)
                | returns r ↦ (returns r, x.1)
              ]).1
      then_keys (continues p', w') i later = later p' w' i
      then_keys (breaks p', w') i later = i
      then_keys (returns r, w') i later = i

  try_bindings-Inv :
      (bs : List (List RoutedKey)) (p : Progress) (w : World S W)
      → Inv w
      → Inv (try_bindings o ctx entry body session on_answer bs p w).1
  unfolding try_bindings
  try_bindings-Inv [] p w h = h
  try_bindings-Inv (b ∷ bs) p w h =
      then_bindings (try_keys o ctx entry body session on_answer b p w) (try_keys-Inv b p w h)
        (try_bindings-Inv bs)
    where
      then_bindings :
          (x : Next R × World S W)
          → Inv x.1
          → ((p' : Progress) (w' : World S W)
              → Inv w'
              → Inv (try_bindings o ctx entry body session on_answer bs p' w').1)
          → Inv
              (elim x.0 as (λ _. Next R × World S W) [
                | continues p' ↦ try_bindings o ctx entry body session on_answer bs p' x.1
                | breaks p' ↦ try_bindings o ctx entry body session on_answer bs p' x.1
                | returns r ↦ (returns r, x.1)
              ]).1
      then_bindings (continues p', w') i later = later p' w' i
      then_bindings (breaks p', w') i later = later p' w' i
      then_bindings (returns r, w') i later = i

  pub run_candidates-Inv :
      (candidates : List (List RoutedKey)) (w : World S W)
      → Inv w
      → Inv (run_candidates o ctx entry body session on_answer candidates w).1
  unfolding run_candidates
  run_candidates-Inv candidates w h =
      ended
        (try_bindings o ctx entry body session on_answer (take max_binding_attempts candidates)
          nothing_tried w)
        (try_bindings-Inv (take max_binding_attempts candidates) nothing_tried w h)
    where
      ended :
          (x : Next R × World S W)
          → Inv x.1
          → Inv
              (elim x.0 as (λ _. Result R × World S W) [
                | continues p ↦ (
                  exhausted_failure o ctx entry body session on_answer p,
                  refunded o ctx session x.1,
                )
                | breaks p ↦ (
                  exhausted_failure o ctx entry body session on_answer p,
                  refunded o ctx session x.1,
                )
                | returns r ↦ (r, x.1)
              ]).1
      ended (continues p, w') i = refunded-Inv w' i
      ended (breaks p, w') i = refunded-Inv w' i
      ended (returns r, w') i = i
