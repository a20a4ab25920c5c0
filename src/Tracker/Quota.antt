-- ===== src/Tracker/Quota.antt =====
-- crates/core/src/tracker.rs: what a successful request does to the quotas of the small models.
use chenni_x_api.Prelude.Int.{ℤ, pos, ◌≤ℤ◌, eqb_ℤ, wrap_i64, saturating_add}
use chenni_x_api.Prelude.Maps.{get, pair_eq, pair_beq, pair_beq_iff, get-insert}
use chenni_x_api.Prelude.Tests.{if◌then◌else◌, Option-cases, Bool-cases}
use chenni_x_api.Prelude.{
  ◌≡◌, ◌≢◌, ◌↔◌, refl, ap, sym, subst, ◌⊎◌, inl, inr, String, Bool, true, false, Option, none, some,
  arith,
}
use chenni_x_api.Common.Types.{RowId, Usage}
use chenni_x_api.Cache.{QuotaState, QuotaUnit, token, call, exhausted}
use chenni_x_api.Cache.Store.{ConfigCache, get_small_model_quota, update_small_model_quota}
use chenni_x_api.Health.{HealthManager}
use chenni_x_api.Tracker.{
  UsageWriter, UsageLog, delta_of, status_for, accumulate_small_model_quota, track_success,
}

-- The entry of a small model after a request that used it.
abbrev pub counted : Usage → QuotaState → QuotaState
counted usage state = elim (delta_of state usage) [
  | none ↦ state
  | some delta ↦
      let new_used = saturating_add state.used delta in
      record state { used = new_used; status = status_for new_used state.limit }
]

abbrev pub count_option : Usage → Option QuotaState → Option QuotaState
count_option usage none = none
count_option usage (some state) = some (counted usage state)

-- `delta` more is used, exhausted means that the limit is reached, and the rest stays.
abbrev pub Added : ℤ → ℤ → QuotaState → QuotaState → Type 0
Added delta limit s s' =
    (s' ≡ record s { used = saturating_add s.used delta; status = s'.status })
    × ((s'.status ≡ exhausted) ↔ (limit ≤ℤ s'.used))

-- How the entry of the request's own small model may change, by its limit and unit.
abbrev pub Counted : Usage → Option ℤ → Option QuotaUnit → QuotaState → QuotaState → Type 0
Counted usage none unit s s' = s' ≡ s
Counted usage (some limit) none s s' = s' ≡ s
Counted usage (some limit) (some call) s s' = Added (pos 1) limit s s'
Counted usage (some limit) (some token) s s' =
    let tokens = wrap_i64 (pos usage.total_tokens) in
    ((tokens ≡ pos 0) × (s' ≡ s)) ⊎ ((tokens ≢ pos 0) × Added tokens limit s s')

abbrev pub Tracked : Usage → Option QuotaState → Option QuotaState → Type 0
Tracked usage none after = after ≡ none
Tracked usage (some s) after =
    (s' : QuotaState) × (after ≡ some s') × Counted usage s.limit s.unit s s'

status_for-exhausted :
    (used limit : ℤ) → (status_for used (some limit) ≡ exhausted) ↔ (limit ≤ℤ used)
unfolding status_for
status_for-exhausted used limit = ground arith

Added-counted :
    (delta limit : ℤ) (s : QuotaState)
    → Added delta limit s (
        let new_used = saturating_add s.used delta in
        record s { used = new_used; status = status_for new_used (some limit) })
Added-counted delta limit s = (refl, status_for-exhausted (saturating_add s.used delta) limit)

counted-Added :
    (usage : Usage) (s : QuotaState) (delta limit : ℤ)
    → delta_of s usage ≡ some delta
    → s.limit ≡ some limit
    → Added delta limit s (counted usage s)
counted-Added usage s delta limit d e =
    let new_used = saturating_add s.used delta in
    let changed : counted usage s
        ≡ record s { used = new_used; status = status_for new_used (some limit) } =
      rw (counted, d) (ap (λ l. record s { used = new_used; status = status_for new_used l }) e) in
    subst (Added delta limit s) (sym changed) (Added-counted delta limit s)

counted-Counted :
    (usage : Usage) (s : QuotaState) (limit : Option ℤ) (unit : Option QuotaUnit)
    → s.limit ≡ limit
    → s.unit ≡ unit
    → Counted usage limit unit s (counted usage s)
unfolding delta_of
counted-Counted usage s none unit e f = rw e refl
counted-Counted usage s (some limit) none e f = rw (e, f) refl
counted-Counted usage s (some limit) (some call) e f =
    counted-Added usage s (pos 1) limit (rw (e, f)) e
counted-Counted usage s (some limit) (some token) e f =
    let tokens = wrap_i64 (pos usage.total_tokens) in
    elim (Bool-cases (eqb_ℤ tokens (pos 0))) [
      | inl z ↦ inl (ground (arith, z), ground (arith, e, f, z))
      | inr z ↦ inr (ground (arith, z), counted-Added usage s tokens limit (rw (e, f, z)) e)
    ]

count_option-Tracked :
    (usage : Usage) (before : Option QuotaState) → Tracked usage before (count_option usage before)
count_option-Tracked usage none = refl
count_option-Tracked usage (some s) =
    (counted usage s, refl, counted-Counted usage s s.limit s.unit refl refl)

abbrev pub TrackedIf : Bool → Usage → Option QuotaState → Option QuotaState → Type 0
TrackedIf true usage before after = Tracked usage before after
TrackedIf false usage before after = after ≡ before

TrackedIf-count :
    (own : Bool) (usage : Usage) (before after : Option QuotaState)
    → after ≡ (if own then count_option usage before else before)
    → TrackedIf own usage before after
TrackedIf-count true usage before after e =
    subst (Tracked usage before) (sym e) (count_option-Tracked usage before)
TrackedIf-count false usage before after e = e

module _ {W : Type 0} (writer : UsageWriter W) where
  accumulate-get :
      (c : RowId) (upstream : String) (usage : Usage) (cache : ConfigCache) (w : W)
      (channel_id : RowId) (model : String)
      → get_small_model_quota channel_id model
          (accumulate_small_model_quota writer c upstream usage (cache, w)).0
        ≡ (if pair_beq (c, upstream) (channel_id, model)
            then count_option usage (get_small_model_quota channel_id model cache)
            else get_small_model_quota channel_id model cache)
  unfolding accumulate_small_model_quota get_small_model_quota update_small_model_quota
  accumulate-get c upstream usage cache w channel_id model = elim (Option-cases cache.cached) [
    | inl none_cached ↦ rw none_cached (ground arith)
    | inr (d, e) ↦ elim (Option-cases (get (c, upstream) d.small_model_quota)) [
      | inl absent ↦ ground (arith, pair_beq_iff (c, upstream) (channel_id, model))
      | inr (state, present) ↦ ground (
        arith,
        pair_beq_iff (c, upstream) (channel_id, model),
        get-insert (channel_id, model) (c, upstream) (counted usage state) d.small_model_quota,
      )
    ]
  ]

  -- A successful request adds its tokens, or one call, to the used quota of its own small model
  -- where this has an entry with a limit and a unit. The entry is then exhausted if and only if what
  -- is used is at least the limit, and nothing else of it changes. An entry without a limit or a
  -- unit, or a request of no tokens, changes nothing; no entry is created; and every other entry of
  -- the cache is kept.
  pub track_success_counts :
      (row : UsageLog) (upstream : String) (h : HealthManager) (cache : ConfigCache) (w : W)
      (channel_id : RowId) (model : String)
      → (let before = get_small_model_quota channel_id model cache in
          let after =
            get_small_model_quota channel_id model
              (track_success writer row upstream (h, (cache, w))).1.0 in
          TrackedIf
            (pair_beq (row.channel_id, upstream) (channel_id, model))
            row.usage
            before
            after)
  unfolding track_success accumulate_small_model_quota get_small_model_quota
      update_small_model_quota
  track_success_counts row upstream h cache w channel_id model =
      TrackedIf-count (pair_beq (row.channel_id, upstream) (channel_id, model)) row.usage _ _
        (accumulate-get row.channel_id upstream row.usage cache _ channel_id model)
