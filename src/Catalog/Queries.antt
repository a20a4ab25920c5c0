-- ===== src/Catalog/Queries.antt =====
-- crates/server/src/pipeline.rs: what queries on the tables answer, written without the loader.
use mathlib.Core.List.Perm
use text.Mathlib.TextEquality.{eq_iff}
use chenni_x_api.Prelude.Lists.{keep_if, All-map}
use chenni_x_api.Prelude.Sorting.{
  sort_by, IsSortedBy, with_key, sort_by-IsSortedBy, sort_by-perm, sort_by-sorted, sort_by-stable,
  keep_if-IsSortedBy,
}
use chenni_x_api.Prelude.Int.{ℤ, pos, ◌≤ℤ◌, eqb_ℤ}
use chenni_x_api.Prelude.Maps.{Map, get, pair_eq, pair_beq, nat_eq, string_eq}
use chenni_x_api.Prelude.Tests.{◌==◌, Bool-cases}
use chenni_x_api.Prelude.{
  ◌≡◌, ◌≢◌, ◌↔◌, false, refl, sym, subst, String, str_eq, ◌&&◌, Option, none, some, List, [], ◌∷◌,
  map, inl, inr, Perm, arith,
}
use chenni_x_api.Common.Text.{trim}
use chenni_x_api.Common.Types.{RowId}
use chenni_x_api.Cache.{
  Binding, QuotaState, token, call, day, month, total, exhausted, quota_unit_from_db_str,
  quota_window_from_db_str, quota_status_from_db_str,
}
use chenni_x_api.Catalog.{BindingRow, DiscoveredRow, Catalog, has_model, get_bindings_for_model}
use chenni_x_api.Catalog.Loader.{and_then, binding_list, quota_state_of}

-- A row, without its prices.
abbrev pub row_binding : BindingRow → Binding
row_binding row = record {
  channel_id = row.channel_id;
  upstream_model_name = row.upstream_model_name;
  priority = row.priority;
  weight = row.weight;
}

-- The bindings of a model are its rows, each once, by ascending priority, and those of one priority
-- by ascending channel.
abbrev pub AnswersBindings : Catalog → RowId → List Binding → Type 0
AnswersBindings t m bs =
    (rows : List BindingRow) × (bs ≡ map row_binding rows)
    × Perm rows (keep_if (λ (b : BindingRow). b.model_id == m && has_model t m) t.bindings)
    × IsSortedBy (λ (b : BindingRow). b.priority) rows
    × ((p : ℤ)
        → IsSortedBy (λ (b : BindingRow). pos b.channel_id)
            (with_key (λ (b : BindingRow). b.priority) p rows))

map-IsSortedBy :
    (rows : List BindingRow)
    → IsSortedBy (λ (b : BindingRow). b.priority) rows
    → IsSortedBy (λ (b : Binding). b.priority) (map row_binding rows)
map-IsSortedBy [] h = tt
map-IsSortedBy (r ∷ rs) h =
    (All-map (λ (b : Binding). r.priority ≤ℤ b.priority) row_binding rs h.0, map-IsSortedBy rs h.1)

pub binding_list-AnswersBindings :
    (t : Catalog) (m : RowId) → AnswersBindings t m (binding_list t m)
unfolding binding_list get_bindings_for_model
binding_list-AnswersBindings t m =
    let rows = keep_if (λ (b : BindingRow). b.model_id == m && has_model t m) t.bindings in
    let by_channel = sort_by (λ (b : BindingRow). pos b.channel_id) rows in
    let sorted = sort_by-IsSortedBy (λ (b : BindingRow). b.priority) by_channel in
    (
      sort_by (λ (b : BindingRow). b.priority) by_channel,
      sort_by-sorted (λ (b : Binding). b.priority) _ (map-IsSortedBy _ sorted),
      Perm.trans (sort_by-perm (λ (b : BindingRow). b.priority) by_channel)
          (sort_by-perm (λ (b : BindingRow). pos b.channel_id) rows),
      sorted,
      (λ p.
          subst (IsSortedBy (λ (b : BindingRow). pos b.channel_id))
            (sym (sort_by-stable (λ (b : BindingRow). b.priority) p by_channel))
            (keep_if-IsSortedBy (λ (b : BindingRow). pos b.channel_id)
              (λ (b : BindingRow). eqb_ℤ b.priority p) by_channel
              (sort_by-IsSortedBy (λ (b : BindingRow). pos b.channel_id) rows))),
    )

-- A text of a column, without the space around it.
abbrev pub trimmed : Option String → Option String
trimmed none = none
trimmed (some s) = some (trim s)

-- The state that the columns of a discovered model describe.
pub record Describes (dm : DiscoveredRow) (st : QuotaState) : Type 0 where
  pub limit : st.limit ≡ dm.quota_limit
  pub used : st.used ≡ dm.used_quota
  pub last_reset_at : st.last_reset_at ≡ dm.last_reset_at
  pub token_unit : (st.unit ≡ some token) ↔ (trimmed dm.quota_unit ≡ some "token")
  pub call_unit : (st.unit ≡ some call) ↔ (trimmed dm.quota_unit ≡ some "call")
  pub day_window : (st.window ≡ some day) ↔ (trimmed dm.quota_window ≡ some "day")
  pub month_window : (st.window ≡ some month) ↔ (trimmed dm.quota_window ≡ some "month")
  pub total_window : (st.window ≡ some total) ↔ (trimmed dm.quota_window ≡ some "total")
  pub status : (st.status ≡ exhausted) ↔ (trim dm.quota_status ≡ "exhausted")

differ : (a b : String) → str_eq a b ≡ false → a ≢ b
differ a b h e = ground (arith, h, e, eq_iff a b)

reads_token :
    (s : Option String)
    → (and_then s quota_unit_from_db_str ≡ some token) ↔ (trimmed s ≡ some "token")
unfolding quota_unit_from_db_str
reads_token none = ground arith
reads_token (some s) =
    ground (arith, eq_iff (trim s) "token", eq_iff (trim s) "call", differ "token" "call" refl)

reads_call :
    (s : Option String)
    → (and_then s quota_unit_from_db_str ≡ some call) ↔ (trimmed s ≡ some "call")
unfolding quota_unit_from_db_str
reads_call none = ground arith
reads_call (some s) =
    ground (arith, eq_iff (trim s) "token", eq_iff (trim s) "call", differ "token" "call" refl)

reads_day :
    (s : Option String)
    → (and_then s quota_window_from_db_str ≡ some day) ↔ (trimmed s ≡ some "day")
unfolding quota_window_from_db_str
reads_day none = ground arith
reads_day (some s) = ground (
  arith,
  eq_iff (trim s) "day",
  eq_iff (trim s) "month",
  eq_iff (trim s) "total",
  differ "day" "month" refl,
  differ "day" "total" refl,
  differ "month" "total" refl,
)

reads_month :
    (s : Option String)
    → (and_then s quota_window_from_db_str ≡ some month) ↔ (trimmed s ≡ some "month")
unfolding quota_window_from_db_str
reads_month none = ground arith
reads_month (some s) = ground (
  arith,
  eq_iff (trim s) "day",
  eq_iff (trim s) "month",
  eq_iff (trim s) "total",
  differ "day" "month" refl,
  differ "day" "total" refl,
  differ "month" "total" refl,
)

reads_total :
    (s : Option String)
    → (and_then s quota_window_from_db_str ≡ some total) ↔ (trimmed s ≡ some "total")
unfolding quota_window_from_db_str
reads_total none = ground arith
reads_total (some s) = ground (
  arith,
  eq_iff (trim s) "day",
  eq_iff (trim s) "month",
  eq_iff (trim s) "total",
  differ "day" "month" refl,
  differ "day" "total" refl,
  differ "month" "total" refl,
)

reads_exhausted : (s : String) → (quota_status_from_db_str s ≡ exhausted) ↔ (trim s ≡ "exhausted")
unfolding quota_status_from_db_str
reads_exhausted s = ground (arith, eq_iff (trim s) "exhausted")

quota_state_of-Describes : (dm : DiscoveredRow) → Describes dm (quota_state_of dm)
unfolding quota_state_of
quota_state_of-Describes dm = record {
  limit = refl;
  used = refl;
  last_reset_at = refl;
  token_unit = reads_token dm.quota_unit;
  call_unit = reads_call dm.quota_unit;
  day_window = reads_day dm.quota_window;
  month_window = reads_month dm.quota_window;
  total_window = reads_total dm.quota_window;
  status = reads_exhausted dm.quota_status;
}

-- The discovered models, by channel and name.
abbrev pub discovered_rows : List DiscoveredRow → Map (RowId × String) DiscoveredRow
discovered_rows dms = map (λ (dm : DiscoveredRow). ((dm.channel_id, dm.raw_model_name), dm)) dms

abbrev pub AnswersQuota : Option DiscoveredRow → Option QuotaState → Type 0
AnswersQuota none found = found ≡ none
AnswersQuota (some dm) found = (st : QuotaState) × (found ≡ some st) × Describes dm st

-- The tables as maps, for the columns that the schema keeps distinct.
unfoldable pub quotas : List DiscoveredRow → Map (RowId × String) QuotaState
unfolding quota_state_of
quotas dms =
    map (λ (dm : DiscoveredRow). ((dm.channel_id, dm.raw_model_name), quota_state_of dm)) dms

pub quotas-AnswersQuota :
    (k : RowId × String) (dms : List DiscoveredRow)
    → AnswersQuota (get k (discovered_rows dms)) (get k (quotas dms))
unfolding quotas get
quotas-AnswersQuota k [] = refl
quotas-AnswersQuota k (dm ∷ dms) =
    elim (Bool-cases (pair_beq (dm.channel_id, dm.raw_model_name) k)) [
      | inl e ↦ rw e (quota_state_of dm, refl, quota_state_of-Describes dm)
      | inr e ↦ rw e (quotas-AnswersQuota k dms)
    ]
