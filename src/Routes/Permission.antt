-- ===== src/Routes/Permission.antt =====
-- crates/server/src/routes/mod.rs, `proxy_request`: which requests reach an upstream.
use chenni_x_api.Prelude.Tests.{Bool-cases}
use chenni_x_api.Prelude.{ℕ, ◌≡◌, refl, String, true, inl, inr, Option, none, some}
use chenni_x_api.Common.Types.{RowId, AuthContext, allows_model}
use chenni_x_api.Common.Errors.{ProxyError}
use chenni_x_api.Json.{Json}
use chenni_x_api.Router.{RoutedKey}
use chenni_x_api.Normalizer.{resolve}
use chenni_x_api.Cache.Store.{load}
use chenni_x_api.Executor.{EntryFormat}
use chenni_x_api.Executor.Attempts.{Outside, Reply}
use chenni_x_api.Executor.Run.{Setting}
use chenni_x_api.Executor.Serve.{Answer}
use chenni_x_api.Routes.Proxy.{
  Gateway, Outcome, responds, streams, fails, crashes, client_model, proxy_allowed, proxy_resolved,
  proxy_loaded, proxy_named, proxy_request, error_of,
}

module _ (auth : AuthContext) (entry : EntryFormat) (body : Json) (display : ProxyError → String)
    {S W A : Type 0} (g : Setting) (o : Outside S W Answer)
    (send_stream : ℕ → RoutedKey → Json → Reply A) where
  abbrev pub Allowed : Option (RowId × String) → Type 0
  Allowed none = ⊥
  Allowed (some (model_id, name)) = allows_model auth.token name ≡ true

  -- An answer or a stream came from something that holds.
  abbrev pub OnlyIf : Type 0 → Outcome A × Gateway S W → Type 0
  OnlyIf P (responds b, gw) = P
  OnlyIf P (streams boot, gw) = P
  OnlyIf P (fails e, gw) = Unit
  OnlyIf P (crashes, gw) = Unit

  always : (P : Type 0) (x : Outcome A × Gateway S W) → P → OnlyIf P x
  always P (responds b, gw) p = p
  always P (streams boot, gw) p = p
  always P (fails e, gw) p = tt
  always P (crashes, gw) p = tt

  weaken : (P Q : Type 0) (x : Outcome A × Gateway S W) → (P → Q) → OnlyIf P x → OnlyIf Q x
  weaken P Q (responds b, gw) f p = f p
  weaken P Q (streams boot, gw) f p = f p
  weaken P Q (fails e, gw) f p = tt
  weaken P Q (crashes, gw) f p = tt

  proxy_resolved-OnlyIf :
      (model_name : String) (found : Option (RowId × String)) (gw : Gateway S W)
      → OnlyIf
          (Allowed found)
          (proxy_resolved auth entry body display g o send_stream model_name found gw)
  unfolding proxy_resolved
  proxy_resolved-OnlyIf model_name none gw = tt
  proxy_resolved-OnlyIf model_name (some (model_id, name)) gw =
      elim (Bool-cases (allows_model auth.token name)) [
        | inl h ↦ rw h (
            always (true ≡ true)
              (proxy_allowed auth entry body display g o send_stream model_id name gw) refl)
        | inr h ↦ rw h tt
      ]

  -- The model that a name stands for, once the cache is loaded.
  abbrev pub model_of : String → Gateway S W → Option (RowId × String)
  unfolding load
  model_of model_name gw =
      resolve o.lower model_name (load o.lower g.loader gw.world.cache).1.normalizer

  proxy_loaded-OnlyIf :
      (model_name : String) (failed : Option ProxyError) (gw : Gateway S W)
      → OnlyIf
          (Allowed (resolve o.lower model_name gw.world.cache.normalizer))
          (proxy_loaded auth entry body display g o send_stream model_name failed gw)
  unfolding proxy_loaded
  proxy_loaded-OnlyIf model_name (some e) gw = tt
  proxy_loaded-OnlyIf model_name none gw =
      proxy_resolved-OnlyIf model_name (resolve o.lower model_name gw.world.cache.normalizer) gw

  abbrev pub Named : Option String → Gateway S W → Type 0
  Named named gw =
      (model_name : String) × (named ≡ some model_name) × Allowed (model_of model_name gw)

  proxy_named-OnlyIf :
      (named : Option String) (gw : Gateway S W)
      → OnlyIf (Named named gw) (proxy_named auth entry body display g o send_stream named gw)
  unfolding proxy_named load
  proxy_named-OnlyIf none gw = tt
  proxy_named-OnlyIf (some model_name) gw =
      let (r, cache) = load o.lower g.loader gw.world.cache in
      weaken (Allowed (model_of model_name gw)) (Named (some model_name) gw) _
        (λ allowed. (model_name, refl, allowed))
        (proxy_loaded-OnlyIf model_name (error_of auth entry body display g o send_stream r)
          record gw { world = record gw.world { cache = cache } })

  -- A request is answered or streamed only if it names a model, the name stands for one once the
  -- configuration is loaded, and the token of the request allows that model.
  pub proxy_request-OnlyIf :
      (gw : Gateway S W)
      → OnlyIf
          (Named (client_model auth entry body display) gw)
          (proxy_request auth entry body display g o send_stream gw)
  unfolding proxy_request
  proxy_request-OnlyIf gw = proxy_named-OnlyIf (client_model auth entry body display) gw
