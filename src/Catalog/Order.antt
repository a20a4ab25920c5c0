-- ===== src/Catalog/Order.antt =====
-- crates/storage/src/keys.rs: the order in which the keys of a channel are tried.
use chenni_x_api.Prelude.Int.{ℤ, pos, ltb_ℤ, ◌≤ℤ◌, ◌+ℤ◌, wrap_i32-eq}
use chenni_x_api.Prelude.Lists.{All, All-mono, keep_if}
use chenni_x_api.Prelude.Sorting.{place, sort_by}
use chenni_x_api.Prelude.Tests.{◌==◌, ==_refl, if◌then◌else◌}
use chenni_x_api.Prelude.{
  ℕ, ◌≡◌, ◌<◌, refl, ap, String, Bool, true, false, Option, none, List, [], ◌∷◌, ◌++◌, map, arith,
}
use chenni_x_api.Common.Types.{RowId, F64}
use chenni_x_api.Common.Results.{ok}
use chenni_x_api.Accounts.{Violation, next_id, has_id, statement}
use chenni_x_api.Catalog.{ChannelRow, KeyRow, Catalog, get_keys_for_channel, map_key_row}
use chenni_x_api.Catalog.Keys.{
  in_channel, max_from, max_priority, full_key, insert_key, create_key_full,
  create_key_auto_priority,
}

abbrev pub priority_of : KeyRow → ℤ
priority_of r = r.key_priority

place-append :
    (y x : KeyRow) (ys : List KeyRow)
    → priority_of y ≤ℤ priority_of x
    → place priority_of y (ys ++ x ∷ []) ≡ place priority_of y ys ++ x ∷ []
unfolding place
place-append y x [] h = ground arith
place-append y x (z ∷ zs) h = ground (arith, place-append y x zs h)

sort_by-append :
    (x : KeyRow) (rs : List KeyRow)
    → All (λ r. priority_of r ≤ℤ priority_of x) rs
    → sort_by priority_of (rs ++ x ∷ []) ≡ sort_by priority_of rs ++ x ∷ []
unfolding sort_by place
sort_by-append x [] h = refl
sort_by-append x (r ∷ rs) h =
    rw (sort_by-append x rs h.1) (place-append r x (sort_by priority_of rs) h.0)

max_from-ge : (a : ℤ) (rs : List KeyRow) → a ≤ℤ max_from a rs
max_from-ge a [] = omega arith
max_from-ge a (r ∷ rs) =
    ground (arith, max_from-ge (if ltb_ℤ a r.key_priority then r.key_priority else a) rs)

max_from-All : (a : ℤ) (rs : List KeyRow) → All (λ r. priority_of r ≤ℤ max_from a rs) rs
max_from-All a [] = tt
max_from-All a (r ∷ rs) = (
  ground (arith, max_from-ge (if ltb_ℤ a r.key_priority then r.key_priority else a) rs),
  max_from-All (if ltb_ℤ a r.key_priority then r.key_priority else a) rs,
)

keep_if-append :
    (p : KeyRow → Bool) (rs : List KeyRow) (x : KeyRow)
    → keep_if p (rs ++ x ∷ []) ≡ (if p x then keep_if p rs ++ x ∷ [] else keep_if p rs)
keep_if-append p [] x = refl
keep_if-append p (r ∷ rs) x = ground (arith, keep_if-append p rs x)

max_priority-All : (rs : List KeyRow) → All (λ r. priority_of r ≤ℤ max_priority rs) rs
max_priority-All [] = tt
max_priority-All (r ∷ rs) = (max_from-ge r.key_priority rs, max_from-All r.key_priority rs)

All-below :
    (a b : ℤ) (rs : List KeyRow)
    → a ≤ℤ b
    → All (λ r. priority_of r ≤ℤ a) rs
    → All (λ r. priority_of r ≤ℤ b) rs
All-below a b rs h =
    All-mono (λ r. priority_of r ≤ℤ a) (λ r. priority_of r ≤ℤ b) (λ r q. omega arith) rs

room_le : (a : ℤ) (n : ℕ) → a +ℤ pos 10 ≡ pos n → a ≤ℤ pos n
unfolding ◌+ℤ◌
room_le a n h = ground arith

map-append :
    {A B : Type 0} (f : A → B) (xs : List A) (x : A) → map f (xs ++ x ∷ []) ≡ map f xs ++ f x ∷ []
map-append f [] x = refl
map-append f (y ∷ ys) x = ap (λ zs. f y ∷ zs) (map-append f ys x)

module _ (explain : Violation → String) (t : Catalog) (c : RowId) where
  -- The keys of the channel.
  abbrev pub own : List KeyRow
  own = keep_if (in_channel c) t.keys

  -- A key that is created without a priority, in a channel that exists and whose largest priority
  -- leaves room, becomes the last that the channel tries; the order of the others, and every other
  -- channel, stays as it is.
  pub create_key_auto_priority_last :
      (api_key : String) (label : Option String) (is_free : Bool) (limit : ℤ) (price : F64) (n : ℕ)
      → has_id (λ (r : ChannelRow). r.id) c t.channels ≡ true
      → max_priority own +ℤ pos 10 ≡ pos n
      → n < 2_147_483_648
      → let id = next_id (λ (r : KeyRow). r.id) t.keys in
        let (created, after) =
          create_key_auto_priority none explain c api_key label is_free limit price t in
        (created ≡ ok id)
        × (get_keys_for_channel after c
            ≡ get_keys_for_channel t c
              ++ map_key_row (full_key c api_key label is_free (pos n) limit price id) ∷ [])
        × ((d : RowId) → (c == d) ≡ false → get_keys_for_channel after d ≡ get_keys_for_channel t d)
  unfolding create_key_auto_priority create_key_full insert_key statement get_keys_for_channel
      full_key
  create_key_auto_priority_last api_key label is_free limit price n exists room fits =
      let id = next_id (λ (r : KeyRow). r.id) t.keys in
      let row = full_key c api_key label is_free (pos n) limit price id in
      rw (room, wrap_i32-eq n fits, exists)
        (
          refl,
          rw
              (
                keep_if-append (in_channel c) t.keys row,
                ==_refl c,
                sort_by-append row own (
                    All-below (max_priority own) (pos n) own (room_le (max_priority own) n room)
                      (max_priority-All own)),
              )
              (map-append map_key_row (sort_by priority_of own) row),
          λ d other. rw (keep_if-append (in_channel d) t.keys row, other),
        )
