-- ===== src/Executor/Tries.antt =====
-- crates/core/src/executor.rs: which keys an execution may try, and in which order.
use chenni_x_api.Prelude.Tests.{Bool-cases, Option-cases}
use chenni_x_api.Prelude.Lists.{take}
use chenni_x_api.Prelude.Picks.{Picks, none_left, pick, Adds, Adds-none, Adds-then}
use chenni_x_api.Prelude.{
  ◌≡◌, refl, sym, subst, inl, inr, String, some, List, [], ◌∷◌, ◌++◌, map, arith,
}
use chenni_x_api.Common.Types.{ChannelProvider}
use chenni_x_api.Common.Errors.{ProxyError}
use chenni_x_api.Common.Results.{ProxyResult, ok, err}
use chenni_x_api.Billing.{BillingSession}
use chenni_x_api.Health.{is_available}
use chenni_x_api.Router.{RoutedKey}
use chenni_x_api.Json.{Json}
use chenni_x_api.Executor.{
  EntryFormat, ExecutionContext, ExecutionResult, max_binding_attempts, from_last_attempt,
  no_attempt,
}
use chenni_x_api.Executor.Bodies.{prepare_request}
use chenni_x_api.Executor.Attempts.{
  Reply, timed_out, refused, answered, Outside, World, Progress, nothing_tried, Result, success,
  failure, panics, Next, continues, breaks, returns, key_name,
}
use chenni_x_api.Executor.Loop.{
  tick, log_failure, refunded, react, take_reply, send_prepared, try_key, try_keys, try_bindings,
  exhausted_failure, run_candidates,
}

-- The keys that an outcome reports.
abbrev pub tried : Result ExecutionResult → List String
tried (success r) = r.attempted_keys
tried (failure f) = f.attempted_keys
tried panics = []

-- The names of the keys of some groups.
abbrev pub names_of : List (List RoutedKey) → List String
names_of [] = []
names_of (g ∷ gs) = map key_name g ++ names_of gs

module _ {S W A : Type 0} (o : Outside S W A) (ctx : ExecutionContext) (entry : EntryFormat)
    (body : Json) (session : BillingSession)
    (on_answer : RoutedKey
      → ChannelProvider
      → List String
      → A
      → World S W
      → Result ExecutionResult × World S W)
    (reports : (rk : RoutedKey) (p : ChannelProvider) (attempted : List String) (a : A)
        (w : World S W)
      → tried (on_answer rk p attempted a w).0 ≡ attempted) where
  abbrev pub NextAdds : List String → List String → Next ExecutionResult × World S W → Type 0
  NextAdds before names (continues p, w) = Adds before names p.attempted
  NextAdds before names (breaks p, w) = Adds before names p.attempted
  NextAdds before names (returns r, w) = Adds before names (tried r)

  -- After the key's name is noted, it stays noted.
  abbrev pub Notes : List String → Next ExecutionResult × World S W → Type 0
  Notes attempted (continues p, w) = p.attempted ≡ attempted
  Notes attempted (breaks p, w) = p.attempted ≡ attempted
  Notes attempted (returns r, w) = tried r ≡ attempted

  react-Notes :
      (rk : RoutedKey) (e : ProxyError) (p : Progress) (w : World S W)
      → Notes p.attempted (react o ctx entry body session on_answer rk e p w)
  unfolding react from_last_attempt
  react-Notes rk e p w = ground arith

  take_reply-Notes :
      (rk : RoutedKey) (provider : ChannelProvider) (p : Progress) (reply : Reply A) (w : World S W)
      → Notes p.attempted (take_reply o ctx entry body session on_answer rk provider p reply w)
  unfolding take_reply
  take_reply-Notes rk provider p timed_out w = refl
  take_reply-Notes rk provider p (answered a) w = reports rk provider p.attempted a w
  take_reply-Notes rk provider p (refused e) w =
      react-Notes rk e _ (log_failure o ctx rk (o.display e) w)

  send_prepared-Notes :
      (rk : RoutedKey) (p : Progress) (req : ProxyResult (Json × ChannelProvider)) (w : World S W)
      → Notes p.attempted (send_prepared o ctx entry body session on_answer rk p req w)
  unfolding send_prepared from_last_attempt
  send_prepared-Notes rk p (err e) w = refl
  send_prepared-Notes rk p (ok (req, provider)) w =
      take_reply-Notes rk provider p (o.send w.moment rk req) (tick o ctx w)

  Notes-Adds :
      (before : List String) (name : String) (x : Next ExecutionResult × World S W)
      → Notes (before ++ (name ∷ [])) x
      → NextAdds before (name ∷ []) x
  Notes-Adds before name (continues p, w) h = (name ∷ [], h, pick name (none_left []))
  Notes-Adds before name (breaks p, w) h = (name ∷ [], h, pick name (none_left []))
  Notes-Adds before name (returns r, w) h = (name ∷ [], h, pick name (none_left []))

  try_key-Adds :
      (rk : RoutedKey) (p : Progress) (w : World S W)
      → NextAdds p.attempted (key_name rk ∷ []) (try_key o ctx entry body session on_answer rk p w)
  unfolding try_key
  try_key-Adds rk p w =
      elim (Bool-cases
        (is_available (o.clock w.moment) w.health rk.key.id rk.upstream_model_name)) [
          | inl h ↦ rw h (
              Notes-Adds p.attempted (key_name rk) _ (
                send_prepared-Notes rk
                  (record p { attempted = p.attempted ++ (key_name rk ∷ []); last_tried = some rk })
                  (prepare_request o.translators entry body rk.channel rk.upstream_model_name)
                  (tick o ctx w)))
          | inr h ↦ rw h (Adds-none p.attempted (key_name rk ∷ []))
        ]

  then-Adds :
      (before us vs mid : List String) (x : Next ExecutionResult × World S W)
      → Adds before us mid
      → NextAdds mid vs x
      → NextAdds before (us ++ vs) x
  then-Adds before us vs mid (continues p, w) a b = Adds-then before us vs mid _ a b
  then-Adds before us vs mid (breaks p, w) a b = Adds-then before us vs mid _ a b
  then-Adds before us vs mid (returns r, w) a b = Adds-then before us vs mid _ a b

  try_keys-Adds :
      (rks : List RoutedKey) (p : Progress) (w : World S W)
      → NextAdds p.attempted
          (map key_name rks)
          (try_keys o ctx entry body session on_answer rks p w)
  unfolding try_keys
  try_keys-Adds [] p w = Adds-none p.attempted []
  try_keys-Adds (rk ∷ rks) p w =
      then_keys (try_key o ctx entry body session on_answer rk p w) (try_key-Adds rk p w)
        (try_keys-Adds rks)
    where
      then_keys :
          (x : Next ExecutionResult × World S W)
          → NextAdds p.attempted (key_name rk ∷ []) x
          → ((p' : Progress) (w' : World S W)
              → NextAdds p'.attempted
                  (map key_name rks)
                  (try_keys o ctx entry body session on_answer rks p' w'))
          → NextAdds p.attempted (key_name rk ∷ map key_name rks) (elim x.0 [
            | continues p' ↦ try_keys o ctx entry body session on_answer rks p' x.1
            | breaks p' ↦ (breaks p', x.1)
            | returns r ↦ (returns r, x.1)
          ])
      then_keys (continues p', w') a later =
          then-Adds p.attempted (key_name rk ∷ []) (map key_name rks) p'.attempted _ a (later p' w')
      then_keys (breaks p', w') a later =
          Adds-then p.attempted (key_name rk ∷ []) (map key_name rks) p'.attempted _ a
            (Adds-none p'.attempted (map key_name rks))
      then_keys (returns r, w') a later =
          Adds-then p.attempted (key_name rk ∷ []) (map key_name rks) (tried r) _ a
            (Adds-none (tried r) (map key_name rks))

  try_bindings-Adds :
      (bs : List (List RoutedKey)) (p : Progress) (w : World S W)
      → NextAdds p.attempted (names_of bs) (try_bindings o ctx entry body session on_answer bs p w)
  unfolding try_bindings
  try_bindings-Adds [] p w = Adds-none p.attempted []
  try_bindings-Adds (b ∷ bs) p w =
      then_bindings (try_keys o ctx entry body session on_answer b p w) (try_keys-Adds b p w)
        (try_bindings-Adds bs)
    where
      then_bindings :
          (x : Next ExecutionResult × World S W)
          → NextAdds p.attempted (map key_name b) x
          → ((p' : Progress) (w' : World S W)
              → NextAdds p'.attempted
                  (names_of bs)
                  (try_bindings o ctx entry body session on_answer bs p' w'))
          → NextAdds p.attempted (map key_name b ++ names_of bs) (elim x.0 [
            | continues p' ↦ try_bindings o ctx entry body session on_answer bs p' x.1
            | breaks p' ↦ try_bindings o ctx entry body session on_answer bs p' x.1
            | returns r ↦ (returns r, x.1)
          ])
      then_bindings (continues p', w') a later =
          then-Adds p.attempted (map key_name b) (names_of bs) p'.attempted _ a (later p' w')
      then_bindings (breaks p', w') a later =
          then-Adds p.attempted (map key_name b) (names_of bs) p'.attempted _ a (later p' w')
      then_bindings (returns r, w') a later =
          Adds-then p.attempted (map key_name b) (names_of bs) (tried r) _ a
            (Adds-none (tried r) (names_of bs))

  exhausted-Picks :
      (p : Progress) (names : List String)
      → Picks p.attempted names
      → Picks (tried (exhausted_failure o ctx entry body session on_answer p)) names
  unfolding exhausted_failure no_attempt from_last_attempt
  exhausted-Picks p names h = elim (Option-cases p.last_tried) [
    | inl e ↦ rw e (none_left names)
    | inr (rk, e) ↦ rw e h
  ]

  from_start : (names later : List String) → Adds [] names later → Picks later names
  from_start names later (new, e, p) = subst (λ l. Picks l names) (sym e) p

  abbrev pub EndPicks : List String → Result ExecutionResult × World S W → Type 0
  EndPicks names (r, w) = Picks (tried r) names

  pub run_candidates-Picks :
      (candidates : List (List RoutedKey)) (w : World S W)
      → EndPicks
          (names_of (take max_binding_attempts candidates))
          (run_candidates o ctx entry body session on_answer candidates w)
  unfolding run_candidates
  run_candidates-Picks candidates w =
      ended
        (try_bindings o ctx entry body session on_answer (take max_binding_attempts candidates)
          nothing_tried w)
        (try_bindings-Adds (take max_binding_attempts candidates) nothing_tried w)
    where
      ended :
          (x : Next ExecutionResult × World S W)
          → NextAdds [] (names_of (take max_binding_attempts candidates)) x
          → EndPicks (names_of (take max_binding_attempts candidates)) (elim x.0 [
            | continues p ↦
                (exhausted_failure o ctx entry body session on_answer p, refunded o ctx session x.1)
            | breaks p ↦
                (exhausted_failure o ctx entry body session on_answer p, refunded o ctx session x.1)
            | returns r ↦ (r, x.1)
          ])
      ended (continues p, w') a = exhausted-Picks p _ (from_start _ p.attempted a)
      ended (breaks p, w') a = exhausted-Picks p _ (from_start _ p.attempted a)
      ended (returns r, w') a = from_start _ (tried r) a
