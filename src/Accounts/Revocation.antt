-- ===== src/Accounts/Revocation.antt =====
-- crates/storage/src/users.rs and tokens.rs: what a deleted user's tokens are worth.
use mathlib.Core.Option
use chenni_x_api.Prelude.Int.{ℤ}
use chenni_x_api.Prelude.Lists.{All, find, keep_if}
use chenni_x_api.Prelude.Maps.{keep_some}
use chenni_x_api.Prelude.Tests.{◌==◌, Bool-cases, if◌then◌else◌}
use chenni_x_api.Prelude.{
  ℕ, ◌≡◌, refl, ◌∙◌, subst, String, str_eq, eq_iff, Bool, true, false, not, Option, none, some,
  List, [], ◌∷◌, map, inl, inr, arith,
}
use chenni_x_api.Common.Types.{RowId, TokenConfig, AuthContext}
use chenni_x_api.Common.Results.{ok}
use chenni_x_api.Auth.{AuthDb, validate_token}
use chenni_x_api.Auth.Checks.{context_of, validate_token-eq}
use chenni_x_api.Accounts.{UserRow, TokenRow, Accounts, Violation, statement}
use chenni_x_api.Accounts.Users.{map_user_row, drop_user, user_is_logged, delete_user}
use chenni_x_api.Accounts.Tokens.{map_token_row}
use chenni_x_api.Accounts.Rows.{Distinct}
use chenni_x_api.Accounts.Integrity.{key_of, IsSound}

-- The tables as the check of a token reads them; `parse` reads a JSON list of strings.
abbrev pub auth_db : (String → Option (List String)) → Accounts → AuthDb
auth_db parse db = record {
  tokens = map (map_token_row parse) db.tokens;
  users = map map_user_row db.users;
  token_refusal = none;
  user_refusal = none;
}

abbrev pub belongs : RowId → Option TokenConfig → Bool
belongs k none = false
belongs k (some t) = t.user_id == k

find-map :
    {A B : Type 0} (f : A → B) (p : B → Bool) (xs : List A)
    → find p (map f xs) ≡ Option.map f (find (λ x. p (f x)) xs)
find-map f p [] = refl
find-map f p (x ∷ xs) = ground (arith, find-map f p xs)

absent_key :
    {R : Type 0} (key : R → String) (q : R → Bool) (s : String) (rs : List R)
    → All (λ r. str_eq s (key r) ≡ false) rs
    → find (λ r. str_eq (key r) s) (keep_if q rs) ≡ none
absent_key key q s [] h = refl
absent_key key q s (r ∷ rs) h =
    ground (arith, eq_iff s (key r), eq_iff (key r) s, absent_key key q s rs h.1)

-- A look-up by a column without repetitions, in a part of the table.
find-keep_if :
    {R : Type 0} (key : R → String) (q : R → Bool) (s : String) (rs : List R)
    → Distinct key rs
    → find (λ r. str_eq (key r) s) (keep_if q rs) ≡ keep_some q (find (λ r. str_eq (key r) s) rs)
find-keep_if key q s [] d = refl
find-keep_if key q s (r ∷ rs) d = elim (Bool-cases (str_eq (key r) s)) [
  | inl e ↦
      let gone =
        absent_key key q s rs
          (subst (λ x. All (λ y. str_eq x (key y) ≡ false) rs) ((eq_iff (key r) s).0 e) d.0) in
      elim (Bool-cases (q r)) [ inl b ↦ rw (b, e, b) | inr b ↦ rw (e, b) gone ]
  | inr e ↦ rw e (ground (arith, e, find-keep_if key q s rs d.1))
]

find-other :
    (j k : ℕ) (us : List UserRow)
    → (j == k) ≡ false
    → find (λ (u : UserRow). u.id == j) (keep_if (λ (u : UserRow). not (u.id == k)) us)
      ≡ find (λ (u : UserRow). u.id == j) us
find-other j k [] n = refl
find-other j k (u ∷ us) n = ground (arith, n, find-other j k us n)

ok_if :
    (b : Bool) (c : Option AuthContext) → ok (if b then none else c) ≡ (if b then ok none else ok c)
ok_if true c = refl
ok_if false c = refl

module _ (parse : String → Option (List String)) (now : ℤ) (ip : Option String) where
  -- What the check answers for a row that the key finds.
  context_of_row : Accounts → Option TokenRow → Option AuthContext
  context_of_row db t = context_of (auth_db parse db) now ip (Option.map (map_token_row parse) t)

  validate_token-row :
      (db : Accounts) (key : String)
      → validate_token (auth_db parse db) now key ip
        ≡ ok (context_of_row db (find (λ (t : TokenRow). str_eq t.key key) db.tokens))
  unfolding context_of_row map_token_row
  validate_token-row db key =
      validate_token-eq (auth_db parse db) now key ip refl refl
      ∙ rw (find-map (map_token_row parse) (λ t. str_eq t.key key) db.tokens)

  dropped_context :
      (k : RowId) (db : Accounts) (t : Option TokenRow)
      → context_of_row (drop_user k db) (keep_some (λ (r : TokenRow). not (r.user_id == k)) t)
        ≡ (if belongs k (Option.map (map_token_row parse) t) then none else context_of_row db t)
  unfolding context_of_row map_token_row
  dropped_context k db none = refl
  dropped_context k db (some t) = elim (Bool-cases (t.user_id == k)) [
    | inl e ↦ rw e
    | inr e ↦ rw (
      e,
      context_of,
      find-map map_user_row (λ u. u.id == t.user_id)
          (keep_if (λ (u : UserRow). not (u.id == k)) db.users),
      find-map map_user_row (λ u. u.id == t.user_id) db.users,
      find-other t.user_id k db.users e,
    )
  ]

  -- Where nothing in the usage log refers to a user of sound tables or to the user's tokens, to
  -- delete the user succeeds and revokes exactly that user's tokens: the key of such a token is
  -- invalid from then on, and every other key is checked as before.
  pub delete_user-revokes :
      (explain : Violation → String) (k : RowId) (db : Accounts)
      → IsSound db
      → user_is_logged k db ≡ false
      → (key : String)
      → let (r, after) = delete_user none explain k db in
        (r ≡ ok tt)
        × (validate_token (auth_db parse after) now key ip ≡ (
            if belongs k (find (λ t. str_eq t.key key) (auth_db parse db).tokens)
            then ok none
            else validate_token (auth_db parse db) now key ip))
  unfolding delete_user statement context_of_row map_token_row
  delete_user-revokes explain k db s n key = rw n (
    refl,
    rw
        (
          validate_token-row (drop_user k db) key,
          validate_token-row db key,
          find-keep_if key_of (λ t. not (t.user_id == k)) key db.tokens s.keys,
          find-map (map_token_row parse) (λ t. str_eq t.key key) db.tokens,
          dropped_context k db (find (λ t. str_eq t.key key) db.tokens),
        )
        (ok_if
          (belongs k (Option.map (map_token_row parse) (find (λ t. str_eq t.key key) db.tokens)))
          (context_of_row db (find (λ t. str_eq t.key key) db.tokens))),
  )
