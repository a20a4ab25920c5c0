-- ===== src/Accounts/Rows.antt =====
-- crates/storage/src/users.rs and tokens.rs: what the statements keep of a table.
use chenni_x_api.Prelude.Lists.{All, All-append, All-keep_if, any, keep_if}
use chenni_x_api.Prelude.Tests.{◌==◌, ==_iff, Bool-cases, leb, if◌then◌else◌}
use chenni_x_api.Prelude.{
  ℕ, ◌≡◌, ◌<◌, refl, String, str_eq, Bool, true, false, not, ◌&&◌, List, [], ◌∷◌, ◌++◌, eq_iff, sym,
  subst, inl, inr, arith,
}
use chenni_x_api.Storage.Table.{adjust_at}
use chenni_x_api.Accounts.{next_after, has_id, taken, taken_elsewhere, listed}

module _ {R : Type 0} where
  pub All-kept : (P : R → Type 0) (p : R → Bool) (rs : List R) → All P rs → All P (keep_if p rs)
  All-kept P p rs h = All-keep_if P P p (λ r q _. q) rs h

  same_if :
      {K : Type 0} (g : R → K) (f : R → R)
      → ((r : R) → g (f r) ≡ g r)
      → (b : Bool) (r : R) → g r ≡ g (if b then f r else r)
  same_if g f same true r = sym (same r)
  same_if g f same false r = refl

  -- No text stands twice in the column.
  abbrev pub Distinct : (R → String) → List R → Type 0
  Distinct key [] = Unit
  Distinct key (r ∷ rs) = All (λ q. str_eq (key r) (key q) ≡ false) rs × Distinct key rs

  pub keep_if-Distinct :
      (key : R → String) (p : R → Bool) (rs : List R)
      → Distinct key rs
      → Distinct key (keep_if p rs)
  keep_if-Distinct key p [] d = tt
  keep_if-Distinct key p (r ∷ rs) d = ground (
    arith,
    keep_if-Distinct key p rs d.1,
    All-kept (λ q. str_eq (key r) (key q) ≡ false) p rs d.0,
  )

  pub append-Distinct :
      (key : R → String) (rs : List R) (row : R)
      → taken key (key row) rs ≡ false
      → Distinct key rs
      → Distinct key (rs ++ row ∷ [])
  append-Distinct key [] row n d = (tt, tt)
  append-Distinct key (r ∷ rs) row n d = (
    All-append (λ q. str_eq (key r) (key q) ≡ false) rs (row ∷ []) d.0 (ground (arith, n), tt),
    append-Distinct key rs row (ground (arith, n)) d.1,
  )

  module _ (id : R → ℕ) where
    abbrev pub Ascending : List R → Type 0
    Ascending [] = Unit
    Ascending (r ∷ rs) = All (λ q. id r < id q) rs × Ascending rs

    next_after-lt : (n : ℕ) (rs : List R) → n < next_after n id rs
    next_after-lt n [] = omega arith
    next_after-lt n (r ∷ rs) = ground (arith, next_after-lt (if leb n (id r) then id r else n) rs)

    pub next_id-lt : (n : ℕ) (rs : List R) → All (λ r. id r < next_after n id rs) rs
    next_id-lt n [] = tt
    next_id-lt n (r ∷ rs) = (
      ground (arith, next_after-lt (if leb n (id r) then id r else n) rs),
      next_id-lt (if leb n (id r) then id r else n) rs,
    )

    pub append-Ascending :
        (rs : List R) (row : R)
        → All (λ r. id r < id row) rs
        → Ascending rs
        → Ascending (rs ++ row ∷ [])
    append-Ascending [] row h s = (tt, tt)
    append-Ascending (r ∷ rs) row h s =
        (All-append (λ q. id r < id q) rs (row ∷ []) s.0 (h.0, tt), append-Ascending rs row h.1 s.1)

    pub keep_if-Ascending : (p : R → Bool) (rs : List R) → Ascending rs → Ascending (keep_if p rs)
    keep_if-Ascending p [] s = tt
    keep_if-Ascending p (r ∷ rs) s =
        ground (arith, keep_if-Ascending p rs s.1, All-kept (λ q. id r < id q) p rs s.0)

    pub has_id-append :
        (k : ℕ) (rs : List R) (row : R)
        → has_id id k rs ≡ true
        → has_id id k (rs ++ row ∷ []) ≡ true
    has_id-append k [] row h = ground arith
    has_id-append k (r ∷ rs) row h = ground (arith, has_id-append k rs row)

    pub All-adjusted :
        (f : R → R) (P : R → Type 0)
        → ((r : R) → P r → P (f r))
        → (k : ℕ) (rs : List R) → All P rs
        → All P (adjust_at id k f rs)
    unfolding adjust_at
    All-adjusted f P g k [] h = tt
    All-adjusted f P g k (r ∷ rs) h = ground (arith, g r h.0, All-adjusted f P g k rs h.1)

    module _ (f : R → R) (keeps : (r : R) → id (f r) ≡ id r) where
      pub adjust_at-Ascending :
          (k : ℕ) (rs : List R) → Ascending rs → Ascending (adjust_at id k f rs)
      unfolding adjust_at
      adjust_at-Ascending k [] s = tt
      adjust_at-Ascending k (r ∷ rs) s = (
        subst (λ i. All (λ q. i < id q) (adjust_at id k f rs)) (same_if id f keeps (id r == k) r)
            (All-adjusted f (λ q. id r < id q) (λ q h. rw (keeps q) h) k rs s.0),
        adjust_at-Ascending k rs s.1,
      )

      pub has_id-adjust_at :
          (j k : ℕ) (rs : List R) → has_id id j (adjust_at id k f rs) ≡ has_id id j rs
      unfolding adjust_at
      has_id-adjust_at j k [] = refl
      has_id-adjust_at j k (r ∷ rs) = ground (arith, keeps r, has_id-adjust_at j k rs)

      pub adjust_at-Distinct :
          (key : R → String)
          → ((r : R) → key (f r) ≡ key r)
          → (k : ℕ) (rs : List R) → Distinct key rs
          → Distinct key (adjust_at id k f rs)
      unfolding adjust_at
      adjust_at-Distinct key same k [] d = tt
      adjust_at-Distinct key same k (r ∷ rs) d = (
        subst (λ s. All (λ q. str_eq s (key q) ≡ false) (adjust_at id k f rs))
            (same_if key f same (id r == k) r)
            (All-adjusted f (λ q. str_eq (key r) (key q) ≡ false) (λ q h. rw (same q) h) k rs d.0),
        adjust_at-Distinct key same k rs d.1,
      )

    -- A row whose id is not deleted stays.
    pub has_id-keep_if :
        (k : ℕ) (p : R → Bool) (rs : List R)
        → any (λ r. p r && id r == k) rs ≡ false
        → has_id id k rs ≡ true
        → has_id id k (keep_if (λ r. not (p r)) rs) ≡ true
    has_id-keep_if k p [] n h = h
    has_id-keep_if k p (r ∷ rs) n h = ground (arith, has_id-keep_if k p rs)

    unlisted :
        (p : R → Bool) (rs : List R) (j : ℕ) (js : List ℕ)
        → any (λ r. p r && listed (id r) (j ∷ js)) rs ≡ false
        → (any (λ r. p r && id r == j) rs ≡ false) × (any (λ r. p r && listed (id r) js) rs ≡ false)
    unlisted p [] j js n = (refl, refl)
    unlisted p (r ∷ rs) j js n = ground (arith, unlisted p rs j js)

    pub logged_kept :
        (p : R → Bool) (rs : List R) (logged : List ℕ)
        → any (λ r. p r && listed (id r) logged) rs ≡ false
        → All (λ j. has_id id j rs ≡ true) logged
        → All (λ j. has_id id j (keep_if (λ r. not (p r)) rs) ≡ true) logged
    logged_kept p rs [] n h = tt
    logged_kept p rs (j ∷ js) n h =
        let (a, b) = unlisted p rs j js n in
        (has_id-keep_if j p rs a h.0, logged_kept p rs js b h.1)

    pub adjust_at-absent :
        (k : ℕ) (f : R → R) (rs : List R) → has_id id k rs ≡ false → adjust_at id k f rs ≡ rs
    unfolding adjust_at
    adjust_at-absent k f [] h = refl
    adjust_at-absent k f (r ∷ rs) h = ground (arith, adjust_at-absent k f rs)

    above_absent : (k : ℕ) (rs : List R) → All (λ q. k < id q) rs → has_id id k rs ≡ false
    above_absent k [] h = refl
    above_absent k (r ∷ rs) h = ground (arith, above_absent k rs h.1)

    elsewhere_free :
        (key : R → String) (k : ℕ) (s : String) (rs : List R)
        → All (λ q. k < id q) rs
        → taken_elsewhere id key k s rs ≡ false
        → All (λ q. str_eq s (key q) ≡ false) rs
    elsewhere_free key k s [] h n = tt
    elsewhere_free key k s (r ∷ rs) h n =
        ground (arith, eq_iff s (key r), eq_iff (key r) s, elsewhere_free key k s rs h.1)

    -- A column without repetitions has none after a row is given a text that no other row has.
    pub adjust_at-Distinct_renamed :
        (key : R → String) (f : R → R) (k : ℕ) (s : String)
        → ((r : R) → key (f r) ≡ s)
        → (rs : List R) → Ascending rs
        → taken_elsewhere id key k s rs ≡ false
        → Distinct key rs
        → Distinct key (adjust_at id k f rs)
    unfolding adjust_at
    adjust_at-Distinct_renamed key f k s names [] a n d = tt
    adjust_at-Distinct_renamed key f k s names (r ∷ rs) a n d = elim (Bool-cases (id r == k)) [
      | inl e ↦
          let higher : All (λ q. k < id q) rs =
            subst (λ i. All (λ q. i < id q) rs) ((==_iff (id r) k).0 e) a.0 in
          let free = elsewhere_free key k s rs higher (ground (arith, n)) in
          rw (e, adjust_at-absent k f rs (above_absent k rs higher), names r) (free, d.1)
      | inr e ↦ rw e (
        All-adjusted f (λ q. str_eq (key r) (key q) ≡ false)
            (λ q _. rw (names q) (ground (arith, n, e))) k rs d.0,
        adjust_at-Distinct_renamed key f k s names rs a.1 (ground (arith, n)) d.1,
      )
    ]

    -- The other rows stay when one is deleted by its id.
    pub other_kept :
        (j k : ℕ) (rs : List R)
        → (j == k) ≡ false
        → has_id id j rs ≡ true
        → has_id id j (keep_if (λ r. not (id r == k)) rs) ≡ true
    other_kept j k [] n h = h
    other_kept j k (r ∷ rs) n h = ground (arith, n, other_kept j k rs n)

    pub listed_kept :
        (k : ℕ) (rs : List R) (logged : List ℕ)
        → listed k logged ≡ false
        → All (λ j. has_id id j rs ≡ true) logged
        → All (λ j. has_id id j (keep_if (λ r. not (id r == k)) rs) ≡ true) logged
    listed_kept k rs [] n h = tt
    listed_kept k rs (j ∷ js) n h =
        (other_kept j k rs (ground (arith, n)) h.0, listed_kept k rs js (ground (arith, n)) h.1)
