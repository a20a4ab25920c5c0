-- ===== src/Normalizer/Resolution.antt =====
-- crates/core/src/normalizer.rs: what a name resolves to after a reload.
use chenni_x_api.Prelude.Tests.{if◌then◌else◌, Bool-cases}
use chenni_x_api.Prelude.Maps.{get, insert, string_eq, get-insert}
use chenni_x_api.Prelude.{
  String, str_eq, eq_iff, ◌≡◌, refl, ap, inl, inr, true, false, Option, none, some, List, [], ◌∷◌,
  arith,
}
use chenni_x_api.Common.Text.{is_blank}
use chenni_x_api.Common.Types.{RowId}
use chenni_x_api.Normalizer.{Normalizer, normal_form, resolve, reload, reload_from}

differs : (s t : String) → is_blank s ≡ true → is_blank t ≡ false → str_eq s t ≡ false
differs s t h k = ground (arith, eq_iff s t)

module _ (lower : String → String) where
  -- The last entry of the mapping whose name has the given normal form.
  abbrev pub last_entry :
      String → List (String × (RowId × String)) → Option (RowId × String) → Option (RowId × String)
  last_entry name [] found = found
  last_entry name ((k, v) ∷ mapping) found =
      last_entry name mapping (if str_eq (normal_form lower k) name then some v else found)

  get-reload_from :
      (name : String) (start : Normalizer) (mapping : List (String × (RowId × String)))
      → is_blank name ≡ false
      → get name (reload_from lower start mapping) ≡ last_entry name mapping (get name start)
  unfolding reload_from
  get-reload_from name start [] h = refl
  get-reload_from name start ((k, v) ∷ mapping) h =
      elim (Bool-cases (is_blank (normal_form lower k))) [
        | inl blank ↦
            rw (blank, differs (normal_form lower k) name blank h)
              (get-reload_from name start mapping h)
        | inr named ↦
            rw (named, get-reload_from name (insert (normal_form lower k) v start) mapping h)
              (ap (last_entry name mapping) (get-insert name (normal_form lower k) v start))
      ]

  -- After a reload a name resolves to the last entry that spells it up to case and surrounding
  -- blanks, to that entry's id and canonical name unchanged; a blank name resolves to nothing.
  pub resolve-reload :
      (name : String) (mapping : List (String × (RowId × String)))
      → resolve lower name (reload lower mapping) ≡ (
          if is_blank (normal_form lower name)
          then none
          else last_entry (normal_form lower name) mapping none)
  unfolding resolve reload get
  resolve-reload name mapping = elim (Bool-cases (is_blank (normal_form lower name))) [
    | inl blank ↦ rw blank
    | inr named ↦ rw named (get-reload_from (normal_form lower name) [] mapping named)
  ]
