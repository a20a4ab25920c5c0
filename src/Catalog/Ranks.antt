-- ===== src/Catalog/Ranks.antt =====
-- crates/storage/src/keys.rs: rows that are numbered by a list of their ids, sorted.
use chenni_x_api.Prelude.Int.{ℤ, pos, ltb_ℤ, leb_ℤ}
use chenni_x_api.Prelude.Lists.{All, All-mono, All-keep_if, any, keep_if, length}
use chenni_x_api.Prelude.Sorting.{place, sort_by, All-sort_by}
use chenni_x_api.Prelude.Tests.{◌==◌, ==_iff, Bool-cases, if◌then◌else◌}
use chenni_x_api.Prelude.{
  ℕ, suc, ◌+◌, ◌*◌, ◌≡◌, ◌<◌, ◌≤◌, refl, subst, ap, Bool, true, false, not, List, [], ◌∷◌, map, inl,
  inr, arith,
}
use chenni_x_api.Accounts.{has_id}
use chenni_x_api.Accounts.Rows.{Ascending, keep_if-Ascending, other_kept}
use chenni_x_api.Catalog.{KeyRow}
use chenni_x_api.Catalog.Order.{priority_of}

abbrev pub key_id : KeyRow → ℕ
key_id r = r.id

-- The rows but for one.
abbrev without : ℕ → List KeyRow → List KeyRow
without k rs = keep_if (λ (r : KeyRow). not (r.id == k)) rs

abbrev pub member : ℕ → List ℕ → Bool
member k ks = any (λ j. j == k) ks

abbrev pub Nodup : List ℕ → Type 0
Nodup [] = Unit
Nodup (k ∷ ks) = (member k ks ≡ false) × Nodup ks

without-absent : (k : ℕ) (rs : List KeyRow) → All (λ r. k < key_id r) rs → without k rs ≡ rs
without-absent k [] h = refl
without-absent k (r ∷ rs) h = ground (arith, without-absent k rs h.1)

length-without :
    (k : ℕ) (rs : List KeyRow)
    → Ascending key_id rs
    → has_id key_id k rs ≡ true
    → length rs ≡ suc (length (without k rs))
length-without k [] a h = ground arith
length-without k (r ∷ rs) a h = elim (Bool-cases (r.id == k)) [
  | inl e ↦
      rw
        (e, without-absent k rs (subst (λ i. All (λ q. i < key_id q) rs) ((==_iff r.id k).0 e) a.0))
  | inr e ↦ rw e (ap suc (length-without k rs a.1 (ground (arith, h, e))))
]

-- The other ids stay in the rows.
others_stay :
    (k : ℕ) (ks : List ℕ) (rs : List KeyRow)
    → member k ks ≡ false
    → All (λ j. has_id key_id j rs ≡ true) ks
    → All (λ j. has_id key_id j (without k rs) ≡ true) ks
others_stay k [] rs n h = tt
others_stay k (j ∷ js) rs n h =
    (other_kept key_id j k rs (ground (arith, n)) h.0, others_stay k js rs (ground (arith, n)) h.1)

All-put_back :
    (k : ℕ) (ks : List ℕ) (rs : List KeyRow)
    → All (λ r. member (key_id r) ks ≡ true) (without k rs)
    → All (λ r. member (key_id r) (k ∷ ks) ≡ true) rs
All-put_back k ks [] h = tt
All-put_back k ks (r ∷ rs) h = ground (arith, All-put_back k ks rs)

-- As many distinct ids as there are rows, all of them ids of rows, leave no row out.
pub nobody_left :
    (ks : List ℕ) (rs : List KeyRow)
    → Ascending key_id rs
    → Nodup ks
    → length ks ≡ length rs
    → All (λ j. has_id key_id j rs ≡ true) ks
    → All (λ r. member (key_id r) ks ≡ true) rs
nobody_left [] [] a n l h = tt
nobody_left [] (r ∷ rs) a n l h = ground (arith, l)
nobody_left (k ∷ ks) rs a n l h = All-put_back k ks rs (
    nobody_left ks (without k rs) (keep_if-Ascending key_id (λ r. not (r.id == k)) rs a) n.1
      (ground (arith, l, length-without k rs a h.0)) (others_stay k ks rs n.0 h.1))

-- The row with the least priority comes first.
Least : ℕ → ℤ → KeyRow → Type 0
Least k m r = if r.id == k then priority_of r ≡ m else ltb_ℤ m (priority_of r) ≡ true

place-first :
    (x : KeyRow) (ys : List KeyRow)
    → All (λ y. ltb_ℤ (priority_of x) (priority_of y) ≡ true) ys
    → place priority_of x ys ≡ x ∷ ys
unfolding place
place-first x [] h = refl
place-first x (y ∷ ys) h = ground arith

abbrev First : ℕ → ℤ → List KeyRow → Type 0
First k m rs =
    (x : KeyRow) × (x.id ≡ k)
    × (priority_of x ≡ m)
    × (sort_by priority_of rs ≡ x ∷ sort_by priority_of (without k rs))

Least-above :
    (k : ℕ) (m : ℤ) (rs : List KeyRow)
    → All (λ r. k < key_id r) rs
    → All (Least k m) rs
    → All (λ y. ltb_ℤ m (priority_of y) ≡ true) rs
unfolding Least
Least-above k m [] a h = tt
Least-above k m (r ∷ rs) a h = ground (arith, Least-above k m rs a.1 h.1)

behind : (m p q : ℤ) → ltb_ℤ m p ≡ true → q ≡ m → leb_ℤ p q ≡ false
behind m p q h e = rw e (ground arith)

minimum_leads :
    (k : ℕ) (m : ℤ) (rs : List KeyRow)
    → Ascending key_id rs
    → has_id key_id k rs ≡ true
    → All (Least k m) rs
    → First k m rs
unfolding sort_by place Least
minimum_leads k m [] a h l = ground arith
minimum_leads k m (r ∷ rs) a h l = elim (Bool-cases (r.id == k)) [
  | inl e ↦
      let above = subst (λ i. All (λ q. i < key_id q) rs) ((==_iff r.id k).0 e) a.0 in
      let least : priority_of r ≡ m = ground (arith, l.0, e) in
      (
        r,
        (==_iff r.id k).0 e,
        least,
        rw (e, without-absent k rs above)
            (place-first r (sort_by priority_of rs) (
              All-sort_by priority_of (λ y. ltb_ℤ (priority_of r) (priority_of y) ≡ true) rs
                (rw least (Least-above k m rs above l.1)))),
      )
  | inr e ↦
      let (x, named, least, sorted) = minimum_leads k m rs a.1 (ground (arith, h, e)) l.1 in
      (
        x,
        named,
        least,
        rw (e, sorted, behind m (priority_of r) (priority_of x) (ground (arith, l.0, e)) least),
      )
]

-- The priority of the id's place in the list.
abbrev pub rank : ℕ → List ℕ → ℕ → ℕ
rank i [] k = i
rank i (j ∷ js) k = if j == k then i else rank (suc i) js k

abbrev pub Ranked : ℕ → List ℕ → KeyRow → Type 0
Ranked i ks r = priority_of r ≡ pos ((rank i ks r.id + 1) * 10)

rank-ge : (i : ℕ) (ks : List ℕ) (k : ℕ) → i ≤ rank i ks k
rank-ge i [] k = omega arith
rank-ge i (j ∷ js) k = ground (arith, rank-ge (suc i) js k)

Ranked-Least :
    (i k : ℕ) (ks : List ℕ) (r : KeyRow) → Ranked i (k ∷ ks) r → Least k (pos ((i + 1) * 10)) r
unfolding Least
Ranked-Least i k ks r h = ground (arith, ==_iff r.id k, ==_iff k r.id, rank-ge (suc i) ks r.id)

Ranked-without :
    (i k : ℕ) (ks : List ℕ) (rs : List KeyRow)
    → All (Ranked i (k ∷ ks)) rs
    → All (Ranked (suc i) ks) (without k rs)
Ranked-without i k ks rs h =
    All-keep_if (Ranked (suc i) ks) (Ranked i (k ∷ ks)) (λ (r : KeyRow). not (r.id == k))
      (λ r q n. ground (arith, ==_iff r.id k, ==_iff k r.id)) rs h

-- Rows whose priorities are the places of their ids in a list are sorted into its order.
pub sorted_by_rank :
    (i : ℕ) (ks : List ℕ) (rs : List KeyRow)
    → Ascending key_id rs
    → Nodup ks
    → length ks ≡ length rs
    → All (λ j. has_id key_id j rs ≡ true) ks
    → All (Ranked i ks) rs
    → map key_id (sort_by priority_of rs) ≡ ks
unfolding sort_by
sorted_by_rank i [] [] a n l h r = refl
sorted_by_rank i [] (x ∷ xs) a n l h r = ground (arith, l)
sorted_by_rank i (k ∷ ks) rs a n l h r =
    let (x, named, least, sorted) =
      minimum_leads k (pos ((i + 1) * 10)) rs a h.0
        (All-mono (Ranked i (k ∷ ks)) (Least k (pos ((i + 1) * 10))) (Ranked-Least i k ks) rs r) in
    let rest =
      sorted_by_rank (suc i) ks (without k rs)
        (keep_if-Ascending key_id (λ r. not (r.id == k)) rs a) n.1
        (ground (arith, l, length-without k rs a h.0)) (others_stay k ks rs n.0 h.1)
        (Ranked-without i k ks rs r) in
    rw (sorted, named, rest)
