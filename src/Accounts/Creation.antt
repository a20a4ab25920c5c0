-- ===== src/Accounts/Creation.antt =====
-- crates/storage/src/tokens.rs: a token that is created, read back.
use mathlib.Core.Option
use chenni_x_api.Prelude.Int.{ℤ, pos, eqb_ℤ}
use chenni_x_api.Prelude.Lists.{All, find, any}
use chenni_x_api.Prelude.Tests.{==_refl, if◌then◌else◌}
use chenni_x_api.Prelude.Maps.{string_eq}
use chenni_x_api.Prelude.{
  ℕ, ◌<◌, ◌≡◌, refl, String, str_eq, eq_iff, Bool, true, false, not, Option, none, some, List, [],
  ◌∷◌, ◌++◌, arith,
}
use chenni_x_api.Common.Types.{RowId, TokenConfig}
use chenni_x_api.Common.Results.{ok}
use chenni_x_api.Storage.Table.{select}
use chenni_x_api.Accounts.{
  TokenRow, Accounts, Violation, next_id, next_after, has_id, taken, statement,
}
use chenni_x_api.Accounts.Tokens.{
  map_token_row, addresses, limits_of, flag, null_if_empty, full_row, insert_token,
  create_token_full, get_token_by_key, get_token_by_id,
}
use chenni_x_api.Accounts.Rows.{next_id-lt}
use chenni_x_api.Accounts.Integrity.{key_of, token_id_of, user_id_of}

find-append :
    {R : Type 0} (p : R → Bool) (rs : List R) (row : R)
    → any p rs ≡ false
    → find p (rs ++ row ∷ []) ≡ (if p row then some row else none)
find-append p [] row h = refl
find-append p (r ∷ rs) row h = ground (arith, find-append p rs row)

find-append_other :
    {R : Type 0} (p : R → Bool) (rs : List R) (row : R)
    → p row ≡ false
    → find p (rs ++ row ∷ []) ≡ find p rs
find-append_other p [] row h = rw h
find-append_other p (r ∷ rs) row h = ground (arith, find-append_other p rs row h)

select-append :
    (rs : List TokenRow) (row : TokenRow)
    → has_id token_id_of row.id rs ≡ false
    → select token_id_of row.id (rs ++ row ∷ []) ≡ some row
unfolding select
select-append [] row h = rw (==_refl row.id)
select-append (r ∷ rs) row h = ground (arith, select-append rs row)

flag_lem : (b : Bool) → not (eqb_ℤ (flag b) (pos 0)) ≡ b
flag_lem true = ground arith
flag_lem false = ground arith

-- The token that an administrator describes.
abbrev pub described :
    (String → Option (List String))
    → RowId
    → String
    → String
    → ℤ
    → Bool
    → ℤ
    → String
    → Bool
    → String
    → RowId
    → TokenConfig
unfolding addresses
described parse user_id name key remain_quota unlimited_quota expired_time model_limits
      model_limits_enabled allow_ips id =
    record {
      id = id;
      user_id = user_id;
      key = key;
      name = null_if_empty name;
      remain_quota = remain_quota;
      used_quota = pos 0;
      unlimited_quota = unlimited_quota;
      expired_time = expired_time;
      model_limits_enabled = model_limits_enabled;
      model_limits = if str_eq model_limits "" then none else some (limits_of parse model_limits);
      status = pos 1;
      allow_ips = if str_eq allow_ips "" then none else some (addresses allow_ips);
    }

null_lem :
    {B : Type 0} (f : String → B) (s : String)
    → Option.map f (null_if_empty s) ≡ (if str_eq s "" then none else some (f s))
null_lem f s = ground arith

full_row-described :
    (parse : String → Option (List String)) (u : RowId) (n k : String) (r : ℤ) (l : Bool) (x : ℤ)
    (m : String) (b : Bool) (i : String) (id : RowId)
    → map_token_row parse (full_row u n k r l x m b i id) ≡ described parse u n k r l x m b i id
unfolding map_token_row
full_row-described parse u n k r l x m b i id =
    rw (flag_lem l, flag_lem b, null_lem (limits_of parse) m, null_lem addresses i)

fresh-absent :
    (m : ℕ) (rs : List TokenRow) → All (λ t. token_id_of t < m) rs → has_id token_id_of m rs ≡ false
fresh-absent m [] h = refl
fresh-absent m (t ∷ ts) h = ground (arith, fresh-absent m ts h.1)

-- Ids of the table are below the next one.
next_id-absent :
    (n : ℕ) (rs : List TokenRow) → has_id token_id_of (next_after n token_id_of rs) rs ≡ false
next_id-absent n rs = fresh-absent (next_after n token_id_of rs) rs (next_id-lt token_id_of n rs)

module _ (explain : Violation → String) (parse : String → Option (List String)) where
  -- Where the key is new and the user exists, the token that an administrator describes is created
  -- with the next id, and read back as described, by its key and by its id: the limits and the
  -- addresses from their texts, where those are not empty. Every other key finds what it found.
  pub create_token_full-described :
      (u : RowId) (n k : String) (r : ℤ) (l : Bool) (x : ℤ) (m : String) (b : Bool) (i : String)
      (db : Accounts)
      → taken key_of k db.tokens ≡ false
      → has_id user_id_of u db.users ≡ true
      → let id = next_id token_id_of db.tokens in
        let (created, after) = create_token_full none explain u n k r l x m b i db in
        (created ≡ ok id)
        × (get_token_by_key none explain parse k after
            ≡ (ok (some (described parse u n k r l x m b i id)), after))
        × (get_token_by_id none explain parse id after
            ≡ (ok (some (described parse u n k r l x m b i id)), after))
        × ((other : String)
            → str_eq k other ≡ false
            → (get_token_by_key none explain parse other after).0
              ≡ (get_token_by_key none explain parse other db).0)
  unfolding create_token_full insert_token statement get_token_by_key get_token_by_id
  create_token_full-described u n k r l x m b i db free owned =
      let id = next_id token_id_of db.tokens in
      let row = full_row u n k r l x m b i id in
      rw (free, owned)
        (
          refl,
          rw (
            find-append (λ t. str_eq t.key k) db.tokens row free,
            (eq_iff k k).1 refl,
            full_row-described parse u n k r l x m b i id,
          ),
          rw (
            select-append db.tokens row (next_id-absent 0 db.tokens),
            full_row-described parse u n k r l x m b i id,
          ),
          λ other h. rw (find-append_other (λ t. str_eq t.key other) db.tokens row h),
        )
