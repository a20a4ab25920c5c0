-- ===== src/Normalizer.antt =====
-- crates/core/src/normalizer.rs: from the model name that a client sends to the model. The case
-- folding of Unicode, `str::to_lowercase`, is the parameter `lower`.
pub mod Resolution
use chenni_x_api.Prelude.Tests.{if◌then◌else◌}
use chenni_x_api.Prelude.Maps.{Map, get, insert, string_eq}
use chenni_x_api.Prelude.{String, Option, none, List, [], ◌∷◌}
use chenni_x_api.Common.Text.{trim, is_blank}
use chenni_x_api.Common.Types.{RowId}

-- The alias map.
abbrev pub Normalizer : Type 0
Normalizer = Map String (RowId × String)

module _ (lower : String → String) where
  abbrev pub normal_form : String → String
  normal_form name = lower (trim name)

  unfoldable pub resolve : String → Normalizer → Option (RowId × String)
  resolve name cache = if is_blank (normal_form name) then none else get (normal_form name) cache

  -- The loop of `reload`, in the order in which the map yields its entries.
  unfoldable pub reload_from : Normalizer → List (String × (RowId × String)) → Normalizer
  reload_from normalized [] = normalized
  reload_from normalized ((k, v) ∷ mapping) =
      reload_from
        (if is_blank (normal_form k) then normalized else insert (normal_form k) v normalized)
        mapping

  unfoldable pub reload : List (String × (RowId × String)) → Normalizer
  unfolding reload_from
  reload mapping = reload_from [] mapping
