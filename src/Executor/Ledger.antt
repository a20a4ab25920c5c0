-- ===== src/Executor/Ledger.antt =====
-- crates/core/src/executor.rs: what the loops do to the balances, from what the branch of an
-- accepted request does to them.
use chenni_x_api.Prelude.Tests.{Bool-cases, Option-cases}
use chenni_x_api.Prelude.Lists.{take}
use chenni_x_api.Prelude.{
  ◌≡◌, refl, subst, inl, inr, ℕ, String, Option, some, List, [], ◌∷◌, ◌++◌, arith,
}
use chenni_x_api.Common.Types.{ChannelProvider}
use chenni_x_api.Cache.{CacheData}
use chenni_x_api.Common.Errors.{ProxyError}
use chenni_x_api.Common.Results.{ProxyResult, ok, err}
use chenni_x_api.Billing.{BillingSession, refund}
use chenni_x_api.Health.{is_available}
use chenni_x_api.Router.{RoutedKey}
use chenni_x_api.Json.{Json}
use chenni_x_api.Executor.{
  EntryFormat, ExecutionContext, ExecutionFailure, status_of, from_last_attempt,
  max_binding_attempts,
}
use chenni_x_api.Executor.Bodies.{prepare_request}
use chenni_x_api.Executor.Attempts.{
  Reply, timed_out, refused, answered, Outside, World, Progress, nothing_tried, Result, failure,
  Next, continues, breaks, returns, key_name,
}
use chenni_x_api.Executor.Loop.{
  tick, log_failure, cool, refunded, react, take_reply, send_prepared, try_key, try_keys,
  try_bindings, exhausted_failure, run_candidates,
}

-- An upstream answered `a` to the request that was prepared for the key.
abbrev pub AnsweredBy :
    {S W A : Type 0} → Outside S W A → EntryFormat → Json → RoutedKey → ChannelProvider → A → Type 0
AnsweredBy o entry body rk provider a =
    (moment : ℕ) × (req : Json) × (prepare_request o.translators entry body rk.channel
        rk.upstream_model_name
      ≡ ok (req, provider))
    × (o.send moment rk req ≡ answered a)

module _ {S W A R : Type 0} (o : Outside S W A) (ctx : ExecutionContext) (entry : EntryFormat)
    (body : Json) (session : BillingSession) (snapshot : Option CacheData)
    (on_answer : RoutedKey → ChannelProvider → List String → A → World S W → Result R × World S W)
    (Moves : S → Result R → S → Type 0)
    (served : (rk : RoutedKey) (provider : ChannelProvider) (attempted : List String) (a : A)
        (w : World S W)
      → w.cache.cached ≡ snapshot
      → AnsweredBy o entry body rk provider a
      → Moves w.ledger
          (on_answer rk provider attempted a w).0
          (on_answer rk provider attempted a w).1.ledger)
    (given_back : (s : S) (f : ExecutionFailure)
      → Moves s (failure f) (refund o.repo session s).1) where
  -- Nothing moves while the loop goes on, and the cache stays.
  abbrev pub NextMoves : S → Next R × World S W → Type 0
  NextMoves s (continues _, w) = (w.ledger ≡ s) × (w.cache.cached ≡ snapshot)
  NextMoves s (breaks _, w) = (w.ledger ≡ s) × (w.cache.cached ≡ snapshot)
  NextMoves s (returns r, w) = Moves s r w.ledger

  react-Moves :
      (rk : RoutedKey) (e : ProxyError) (p : Progress) (w : World S W)
      → w.cache.cached ≡ snapshot
      → NextMoves w.ledger (react o ctx entry body session on_answer rk e p w)
  unfolding react refunded cool
  react-Moves rk e p w k =
      ground (arith, k, given_back w.ledger (from_last_attempt rk p.attempted (status_of e) e))

  take_reply-Moves :
      (rk : RoutedKey) (provider : ChannelProvider) (p : Progress) (reply : Reply A) (w : World S W)
      → w.cache.cached ≡ snapshot
      → ((a : A) → reply ≡ answered a → AnsweredBy o entry body rk provider a)
      → NextMoves w.ledger (take_reply o ctx entry body session on_answer rk provider p reply w)
  unfolding take_reply log_failure cool
  take_reply-Moves rk provider p timed_out w k h = (refl, k)
  take_reply-Moves rk provider p (answered a) w k h =
      served rk provider p.attempted a w k (h a refl)
  take_reply-Moves rk provider p (refused e) w k h =
      react-Moves rk e _ (log_failure o ctx rk (o.display e) w) k

  send_prepared-Moves :
      (rk : RoutedKey) (p : Progress) (req : ProxyResult (Json × ChannelProvider)) (w : World S W)
      → w.cache.cached ≡ snapshot
      → prepare_request o.translators entry body rk.channel rk.upstream_model_name ≡ req
      → NextMoves w.ledger (send_prepared o ctx entry body session on_answer rk p req w)
  unfolding send_prepared refunded
  send_prepared-Moves rk p (err e) w k h = given_back w.ledger _
  send_prepared-Moves rk p (ok (req, provider)) w k h =
      take_reply-Moves rk provider p (o.send w.moment rk req) (tick o ctx w) k
        (λ a sent. (w.moment, req, h, sent))

  try_key-Moves :
      (rk : RoutedKey) (p : Progress) (w : World S W)
      → w.cache.cached ≡ snapshot
      → NextMoves w.ledger (try_key o ctx entry body session on_answer rk p w)
  unfolding try_key
  try_key-Moves rk p w k =
      elim (Bool-cases
        (is_available (o.clock w.moment) w.health rk.key.id rk.upstream_model_name)) [
          | inl h ↦ rw h (
              send_prepared-Moves rk
                (record p { attempted = p.attempted ++ (key_name rk ∷ []); last_tried = some rk })
                (prepare_request o.translators entry body rk.channel rk.upstream_model_name)
                (tick o ctx w) k refl)
          | inr h ↦ rw h (refl, k)
        ]

  try_keys-Moves :
      (rks : List RoutedKey) (p : Progress) (w : World S W)
      → w.cache.cached ≡ snapshot
      → NextMoves w.ledger (try_keys o ctx entry body session on_answer rks p w)
  unfolding try_keys
  try_keys-Moves [] p w k = (refl, k)
  try_keys-Moves (rk ∷ rks) p w k =
      then_keys (try_key o ctx entry body session on_answer rk p w) (try_key-Moves rk p w k)
        (try_keys-Moves rks)
    where
      then_keys :
          (x : Next R × World S W)
          → NextMoves w.ledger x
          → ((p' : Progress) (w' : World S W)
              → w'.cache.cached ≡ snapshot
              → NextMoves w'.ledger (try_keys o ctx entry body session on_answer rks p' w'))
          → NextMoves w.ledger (elim x.0 [
            | continues p' ↦ try_keys o ctx entry body session on_answer rks p' x.1
            | breaks p' ↦ (breaks p', x.1)
            | returns r ↦ (returns r, x.1)
          ])
      then_keys (continues p', w') (e, k') later =
          subst (λ s. NextMoves s (try_keys o ctx entry body session on_answer rks p' w')) e
            (later p' w' k')
      then_keys (breaks p', w') e later = e
      then_keys (returns r, w') m later = m

  try_bindings-Moves :
      (bs : List (List RoutedKey)) (p : Progress) (w : World S W)
      → w.cache.cached ≡ snapshot
      → NextMoves w.ledger (try_bindings o ctx entry body session on_answer bs p w)
  unfolding try_bindings
  try_bindings-Moves [] p w k = (refl, k)
  try_bindings-Moves (b ∷ bs) p w k =
      then_bindings (try_keys o ctx entry body session on_answer b p w) (try_keys-Moves b p w k)
        (λ p' w' e k'.
          subst (λ s. NextMoves s (try_bindings o ctx entry body session on_answer bs p' w')) e
            (try_bindings-Moves bs p' w' k'))
    where
      then_bindings :
          (x : Next R × World S W)
          → NextMoves w.ledger x
          → ((p' : Progress) (w' : World S W)
              → w'.ledger ≡ w.ledger
              → w'.cache.cached ≡ snapshot
              → NextMoves w.ledger (try_bindings o ctx entry body session on_answer bs p' w'))
          → NextMoves w.ledger (elim x.0 [
            | continues p' ↦ try_bindings o ctx entry body session on_answer bs p' x.1
            | breaks p' ↦ try_bindings o ctx entry body session on_answer bs p' x.1
            | returns r ↦ (returns r, x.1)
          ])
      then_bindings (continues p', w') (e, k') later = later p' w' e k'
      then_bindings (breaks p', w') (e, k') later = later p' w' e k'
      then_bindings (returns r, w') m later = m

  -- The end of the loops: a failure gives back, and nothing else moves.
  abbrev pub Ends : S → Result R × World S W → Type 0
  Ends s (r, w) = Moves s r w.ledger

  exhausted-Ends :
      (s : S) (p : Progress) (w : World S W)
      → w.ledger ≡ s
      → Ends s (exhausted_failure o ctx entry body session on_answer p, refunded o ctx session w)
  unfolding exhausted_failure refunded
  exhausted-Ends s p w e =
      subst
        (λ t.
          Moves t (exhausted_failure o ctx entry body session on_answer p)
            (refund o.repo session w.ledger).1)
        e
        (elim (Option-cases p.last_tried) [
          | inl h ↦ rw h (given_back w.ledger _)
          | inr (rk, h) ↦ rw h (given_back w.ledger _)
        ])

  pub run_candidates-Ends :
      (candidates : List (List RoutedKey)) (w : World S W)
      → w.cache.cached ≡ snapshot
      → Ends w.ledger (run_candidates o ctx entry body session on_answer candidates w)
  unfolding run_candidates
  run_candidates-Ends candidates w k =
      ended
        (try_bindings o ctx entry body session on_answer (take max_binding_attempts candidates)
          nothing_tried w)
        (try_bindings-Moves (take max_binding_attempts candidates) nothing_tried w k)
    where
      ended :
          (x : Next R × World S W)
          → NextMoves w.ledger x
          → Ends w.ledger (elim x.0 [
            | continues p ↦
                (exhausted_failure o ctx entry body session on_answer p, refunded o ctx session x.1)
            | breaks p ↦
                (exhausted_failure o ctx entry body session on_answer p, refunded o ctx session x.1)
            | returns r ↦ (r, x.1)
          ])
      ended (continues p, w') (e, _) = exhausted-Ends w.ledger p w' e
      ended (breaks p, w') (e, _) = exhausted-Ends w.ledger p w' e
      ended (returns r, w') m = m
