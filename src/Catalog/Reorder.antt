-- ===== src/Catalog/Reorder.antt =====
-- crates/storage/src/keys.rs, `reorder_keys`: the order that it gives the keys of a channel.
use chenni_x_api.Prelude.Lists.{All, All-mono, keep_if, length}
use chenni_x_api.Prelude.Sorting.{sort_by}
use chenni_x_api.Prelude.Tests.{◌==◌, ==_iff}
use chenni_x_api.Prelude.{
  ℕ, suc, ◌≡◌, ◌<◌, refl, ◌∙◌, sym, subst, ap, String, Bool, true, false, Option, none, some, List,
  [], ◌∷◌, map, arith,
}
use chenni_x_api.Common.Types.{RowId, KeyConfig}
use chenni_x_api.Common.Results.{ProxyResult, ok, err}
use chenni_x_api.Accounts.{Violation, has_id, statement}
use chenni_x_api.Accounts.Rows.{Ascending, keep_if-Ascending}
use chenni_x_api.Catalog.{KeyRow, Catalog, get_keys_for_channel, map_key_row}
use chenni_x_api.Catalog.Keys.{
  in_channel, first_duplicate, first_stranger, number_keys, number_if_valid, reorder_keys,
}
use chenni_x_api.Catalog.Order.{priority_of}
use chenni_x_api.Catalog.Ranks.{key_id, member, Nodup, Ranked, nobody_left, sorted_by_rank}
use chenni_x_api.Catalog.Numbering.{
  no_duplicate, no_stranger, numbered, number_keys-numbered, numbered_id, numbered-Ranked,
  own_numbered, members_pass, none_seen, distinct_pass,
}

length-map : (f : KeyRow → KeyRow) (rs : List KeyRow) → length (map f rs) ≡ length rs
length-map f [] = refl
length-map f (r ∷ rs) = ap suc (length-map f rs)

length-ids : (rs : List KeyRow) → length (map key_id rs) ≡ length rs
length-ids [] = refl
length-ids (r ∷ rs) = ap suc (length-ids rs)

above_numbered :
    (i : ℕ) (ks : List ℕ) (m : ℕ) (rs : List KeyRow)
    → All (λ q. m < key_id q) rs
    → All (λ q. m < key_id q) (map (numbered i ks) rs)
above_numbered i ks m [] h = tt
above_numbered i ks m (r ∷ rs) h = (rw (numbered_id i ks r) h.0, above_numbered i ks m rs h.1)

-- The numbering keeps the ids.
numbered-Ascending :
    (i : ℕ) (ks : List ℕ) (rs : List KeyRow)
    → Ascending key_id rs
    → Ascending key_id (map (numbered i ks) rs)
numbered-Ascending i ks [] a = tt
numbered-Ascending i ks (r ∷ rs) a = (
  subst (λ m. All (λ q. m < key_id q) (map (numbered i ks) rs)) (sym (numbered_id i ks r))
      (above_numbered i ks (key_id r) rs a.0),
  numbered-Ascending i ks rs a.1,
)

numbered_ids :
    (i : ℕ) (ks : List ℕ) (rs : List KeyRow) (j : ℕ)
    → has_id key_id j (map (numbered i ks) rs) ≡ has_id key_id j rs
numbered_ids i ks [] j = refl
numbered_ids i ks (r ∷ rs) j = rw (numbered_id i ks r, numbered_ids i ks rs j)

numbered_by_rank :
    (ks : List ℕ) (rs : List KeyRow)
    → Nodup ks
    → All (λ r. member (key_id r) ks ≡ true) rs
    → All (Ranked 0 ks) (map (numbered 0 ks) rs)
numbered_by_rank ks [] n m = tt
numbered_by_rank ks (r ∷ rs) n m =
    (rw (numbered_id 0 ks r) (numbered-Ranked 0 ks r n m.0), numbered_by_rank ks rs n m.1)

ids_of_configs :
    (rs : List KeyRow) → map (λ (k : KeyConfig). k.id) (map map_key_row rs) ≡ map key_id rs
unfolding map_key_row
ids_of_configs [] = refl
ids_of_configs (r ∷ rs) = ap (λ ks. r.id ∷ ks) (ids_of_configs rs)

-- The ids of a channel's keys, in the order in which they are tried.
unfoldable pub key_order : Catalog → RowId → List RowId
unfolding get_keys_for_channel
key_order t c = map (λ (k : KeyConfig). k.id) (get_keys_for_channel t c)

valid_order :
    (t : Catalog) (c : RowId) (ks : List ℕ)
    → Ascending key_id t.keys
    → length ks ≡ length (keep_if (in_channel c) t.keys)
    → Nodup ks
    → All (λ j. has_id key_id j (keep_if (in_channel c) t.keys) ≡ true) ks
    → key_order (number_keys 0 ks t) c ≡ ks
unfolding get_keys_for_channel key_order
valid_order t c ks a l n h =
    let own = keep_if (in_channel c) t.keys in
    let a' = keep_if-Ascending key_id (in_channel c) t.keys a in
    rw (number_keys-numbered 0 ks t, own_numbered c 0 ks t.keys)
      (ids_of_configs (sort_by priority_of (map (numbered 0 ks) own))
        ∙ sorted_by_rank 0 ks (map (numbered 0 ks) own) (numbered-Ascending 0 ks own a') n
            (l ∙ sym (length-map (numbered 0 ks) own))
            (All-mono (λ j. has_id key_id j own ≡ true)
              (λ j. has_id key_id j (map (numbered 0 ks) own) ≡ true)
              (λ j q. rw (numbered_ids 0 ks own j) q) ks h)
            (numbered_by_rank ks own n (nobody_left ks own a' n l h)))

-- The list names every key of the channel once.
abbrev pub Names : Catalog → RowId → List RowId → Type 0
Names t c ks =
    (length ks ≡ length (keep_if (in_channel c) t.keys))
    × Nodup ks
    × All (λ j. has_id key_id j (keep_if (in_channel c) t.keys) ≡ true) ks

-- Success gives the order; an error changes nothing, and has a reason.
abbrev pub Reordered : Catalog → RowId → List RowId → ProxyResult {0} Unit × Catalog → Type 0
Reordered t c ks (ok _, after) = key_order after c ≡ ks
Reordered t c ks (err e, after) = (after ≡ t) × (¬ Names t c ks)

miscounted :
    (t : Catalog) (c : RowId) (ks : List RowId)
    → (length ks == length (map key_id (keep_if (in_channel c) t.keys))) ≡ false
    → ¬ Names t c ks
miscounted t c ks l (e, n, h) = ground (arith, length-ids (keep_if (in_channel c) t.keys), l, e)

repeated : (ks : List RowId) (k : RowId) → first_duplicate [] ks ≡ some k → ¬ Nodup ks
repeated ks k d n = ground (arith, d, distinct_pass [] ks n (none_seen ks))

not_own :
    (rs : List KeyRow) (ks : List RowId) (k : RowId)
    → first_stranger (map key_id rs) ks ≡ some k
    → ¬ All (λ j. has_id key_id j rs ≡ true) ks
not_own rs ks k f h = ground (arith, f, members_pass rs ks h)

module _ (explain : Violation → String) (t : Catalog) (c : RowId) (ks : List RowId) where
  checked-Reordered :
      (same : Bool) (twice stranger : Option RowId)
      → Ascending key_id t.keys
      → (length ks == length (map key_id (keep_if (in_channel c) t.keys))) ≡ same
      → first_duplicate [] ks ≡ twice
      → first_stranger (map key_id (keep_if (in_channel c) t.keys)) ks ≡ stranger
      → Reordered t c ks (reorder_keys none explain c ks t)
  unfolding reorder_keys number_if_valid statement key_order
  checked-Reordered false twice stranger a l d f = rw l (refl, miscounted t c ks l)
  checked-Reordered true (some k) stranger a l d f =
      rw (l, d) (refl, λ names. repeated ks k d names.1)
  checked-Reordered true none (some k) a l d f =
      rw (l, d, f) (refl, λ names. not_own (keep_if (in_channel c) t.keys) ks k f names.2)
  checked-Reordered true none none a l d f =
      rw (l, d, f)
        (valid_order t c ks a ((==_iff _ _).0 l ∙ length-ids (keep_if (in_channel c) t.keys))
          (no_duplicate [] ks d) (no_stranger (keep_if (in_channel c) t.keys) ks f))

  -- On a table with ascending ids, where SQLite refuses nothing: when `reorder_keys` succeeds, the
  -- channel tries its keys in the order of the list; when it fails, nothing has changed, and the
  -- list does not name every key of the channel once.
  pub reorder_keys-Reordered :
      Ascending key_id t.keys → Reordered t c ks (reorder_keys none explain c ks t)
  reorder_keys-Reordered a =
      checked-Reordered (length ks == length (map key_id (keep_if (in_channel c) t.keys)))
        (first_duplicate [] ks) (first_stranger (map key_id (keep_if (in_channel c) t.keys)) ks) a
        refl refl refl
