-- ===== src/Catalog/Numbering.antt =====
-- crates/storage/src/keys.rs, `reorder_keys`: its checks and its numbering.
use chenni_x_api.Prelude.Int.{pos}
use chenni_x_api.Prelude.Lists.{All, keep_if}
use chenni_x_api.Prelude.Tests.{◌==◌, ==_iff, ==_refl, Bool-cases, if◌then◌else◌}
use chenni_x_api.Prelude.{
  ℕ, suc, ◌+◌, ◌*◌, ◌≡◌, ◌≢◌, refl, ◌∙◌, sym, subst, ap, Bool, true, false, none, List, [], ◌∷◌,
  map, inl, inr, arith,
}
use chenni_x_api.Storage.Table.{adjust_at}
use chenni_x_api.Accounts.{has_id}
use chenni_x_api.Catalog.{KeyRow, Catalog}
use chenni_x_api.Catalog.Keys.{in_channel, set_key, first_duplicate, first_stranger, number_keys}
use chenni_x_api.Catalog.Order.{priority_of}
use chenni_x_api.Catalog.Ranks.{key_id, member, Nodup, rank}

-- The checks.
dup : (seen js : List ℕ) (j : ℕ) → member j seen ≡ true → first_duplicate seen (j ∷ js) ≢ none
dup seen js j m h = ground (arith, m, h)

passed :
    (seen : List ℕ) (j : ℕ) (js : List ℕ)
    → first_duplicate seen (j ∷ js) ≡ none
    → first_duplicate (j ∷ seen) js ≡ none
passed seen j js h = ground (arith, h)

unseen :
    (seen ks : List ℕ) (k : ℕ)
    → first_duplicate seen ks ≡ none
    → member k seen ≡ true
    → member k ks ≡ false
unseen seen [] k h m = refl
unseen seen (j ∷ js) k h m = elim (Bool-cases (j == k)) [
  | inl e ↦ absurd (dup seen js j (subst (λ x. member x seen ≡ true) (sym ((==_iff j k).0 e)) m) h)
  | inr e ↦ rw e (unseen (j ∷ seen) js k (passed seen j js h) (ground (arith, e, m)))
]

pub no_duplicate : (seen ks : List ℕ) → first_duplicate seen ks ≡ none → Nodup ks
no_duplicate seen [] h = tt
no_duplicate seen (k ∷ ks) h = (
  unseen (k ∷ seen) ks k (passed seen k ks h) (ground (arith, ==_refl k)),
  no_duplicate (k ∷ seen) ks (passed seen k ks h),
)

pub any-map : (rs : List KeyRow) (k : ℕ) → member k (map key_id rs) ≡ has_id key_id k rs
any-map [] k = refl
any-map (r ∷ rs) k = rw (any-map rs k)

pub no_stranger :
    (rs : List KeyRow) (ks : List ℕ)
    → first_stranger (map key_id rs) ks ≡ none
    → All (λ j. has_id key_id j rs ≡ true) ks
no_stranger rs [] h = tt
no_stranger rs (k ∷ ks) h = ground (arith, any-map rs k, no_stranger rs ks)

pub members_pass :
    (rs : List KeyRow) (ks : List ℕ)
    → All (λ j. has_id key_id j rs ≡ true) ks
    → first_stranger (map key_id rs) ks ≡ none
members_pass rs [] h = refl
members_pass rs (k ∷ ks) h = ground (arith, any-map rs k, members_pass rs ks h.1)

pub none_seen : (ks : List ℕ) → All (λ k. member k [] ≡ false) ks
none_seen [] = tt
none_seen (k ∷ ks) = (refl, none_seen ks)

seen_more :
    (j : ℕ) (seen ks : List ℕ)
    → member j ks ≡ false
    → All (λ k. member k seen ≡ false) ks
    → All (λ k. member k (j ∷ seen) ≡ false) ks
seen_more j seen [] n h = tt
seen_more j seen (k ∷ ks) n h =
    (ground (arith, n, h.0, ==_iff j k, ==_iff k j), seen_more j seen ks (ground (arith, n)) h.1)

pub distinct_pass :
    (seen ks : List ℕ)
    → Nodup ks
    → All (λ k. member k seen ≡ false) ks
    → first_duplicate seen ks ≡ none
distinct_pass seen [] n h = refl
distinct_pass seen (k ∷ ks) n h =
    rw h.0 (distinct_pass (k ∷ seen) ks n.1 (seen_more k seen ks n.0 h.1))

abbrev prioritized : ℕ → KeyRow → KeyRow
prioritized i r = record r { key_priority = pos ((i + 1) * 10) }

abbrev marked : ℕ → Bool → KeyRow → KeyRow
marked i b r = if b then prioritized i r else r

-- A row after the numbering.
abbrev pub numbered : ℕ → List ℕ → KeyRow → KeyRow
numbered i [] r = r
numbered i (k ∷ ks) r = numbered (suc i) ks (marked i (r.id == k) r)

marked_id : (i : ℕ) (b : Bool) (r : KeyRow) → (marked i b r).id ≡ r.id
marked_id i true r = refl
marked_id i false r = refl

marked_channel : (i : ℕ) (b : Bool) (r : KeyRow) → (marked i b r).channel_id ≡ r.channel_id
marked_channel i true r = refl
marked_channel i false r = refl

adjusted :
    (k : ℕ) (f : KeyRow → KeyRow) (rs : List KeyRow)
    → adjust_at key_id k f rs ≡ map (λ r. if r.id == k then f r else r) rs
unfolding adjust_at
adjusted k f [] = refl
adjusted k f (r ∷ rs) = rw (adjusted k f rs)

map-map :
    {A B C : Type 0} (g : B → C) (f : A → B) (xs : List A)
    → map g (map f xs) ≡ map (λ x. g (f x)) xs
map-map g f [] = refl
map-map g f (x ∷ xs) = rw (map-map g f xs)

map-id : (rs : List KeyRow) → map (λ r. r) rs ≡ rs
map-id [] = refl
map-id (r ∷ rs) = rw (map-id rs)

pub number_keys-numbered :
    (i : ℕ) (ks : List ℕ) (t : Catalog) → (number_keys i ks t).keys ≡ map (numbered i ks) t.keys
unfolding number_keys
number_keys-numbered i [] t = sym (map-id t.keys)
number_keys-numbered i (k ∷ ks) t =
    let f : KeyRow → KeyRow = λ r. record r { key_priority = pos ((i + 1) * 10) } in
    number_keys-numbered (suc i) ks (set_key k f t)
    ∙ rw (adjusted k f t.keys)
        (map-map (numbered (suc i) ks) (λ r. if r.id == k then f r else r) t.keys)

pub numbered_id : (i : ℕ) (ks : List ℕ) (r : KeyRow) → (numbered i ks r).id ≡ r.id
numbered_id i [] r = refl
numbered_id i (k ∷ ks) r =
    numbered_id (suc i) ks (marked i (r.id == k) r) ∙ marked_id i (r.id == k) r

numbered_channel : (i : ℕ) (ks : List ℕ) (r : KeyRow) → (numbered i ks r).channel_id ≡ r.channel_id
numbered_channel i [] r = refl
numbered_channel i (k ∷ ks) r =
    numbered_channel (suc i) ks (marked i (r.id == k) r) ∙ marked_channel i (r.id == k) r

absent_head :
    (k j : ℕ) (ks : List ℕ) → member j (k ∷ ks) ≡ false → ((j == k) ≡ false) × (member j ks ≡ false)
absent_head k j ks h = ground (arith, ==_iff j k, ==_iff k j)

-- An id that is not in the list keeps its priority.
numbered_other :
    (i : ℕ) (ks : List ℕ) (r : KeyRow)
    → member r.id ks ≡ false
    → priority_of (numbered i ks r) ≡ priority_of r
numbered_other i [] r h = refl
numbered_other i (k ∷ ks) r h =
    let (e, rest) = absent_head k r.id ks h in
    ap (λ b. priority_of (numbered (suc i) ks (marked i b r))) e ∙ numbered_other (suc i) ks r rest

flipped : (a b : ℕ) (c : Bool) → (a == b) ≡ c → (b == a) ≡ c
flipped a b c h = ground (arith, ==_iff a b, ==_iff b a)

ranked_head : (i k j : ℕ) (ks : List ℕ) → (k == j) ≡ true → rank i (k ∷ ks) j ≡ i
ranked_head i k j ks h = rw h

ranked_tail : (i k j : ℕ) (ks : List ℕ) → (k == j) ≡ false → rank i (k ∷ ks) j ≡ rank (suc i) ks j
ranked_tail i k j ks h = rw h

pub numbered-Ranked :
    (i : ℕ) (ks : List ℕ) (r : KeyRow)
    → Nodup ks
    → member r.id ks ≡ true
    → priority_of (numbered i ks r) ≡ pos ((rank i ks r.id + 1) * 10)
numbered-Ranked i [] r n m = ground arith
numbered-Ranked i (k ∷ ks) r n m = elim (Bool-cases (r.id == k)) [
  | inl e ↦
      ap (λ b. priority_of (numbered (suc i) ks (marked i b r))) e
      ∙ numbered_other (suc i) ks (prioritized i r)
          (subst (λ x. member x ks ≡ false) (sym ((==_iff r.id k).0 e)) n.0)
      ∙ ap (λ x. pos ((x + 1) * 10)) (sym (ranked_head i k r.id ks (flipped r.id k true e)))
  | inr e ↦
      ap (λ b. priority_of (numbered (suc i) ks (marked i b r))) e
      ∙ numbered-Ranked (suc i) ks r n.1 (ground (arith, m, flipped r.id k false e))
      ∙ ap (λ x. pos ((x + 1) * 10)) (sym (ranked_tail i k r.id ks (flipped r.id k false e)))
]

map_if :
    (f : KeyRow → KeyRow) (b : Bool) (r : KeyRow) (rs : List KeyRow)
    → (if b then f r ∷ map f rs else map f rs) ≡ map f (if b then r ∷ rs else rs)
map_if f true r rs = refl
map_if f false r rs = refl

pub own_numbered :
    (c i : ℕ) (ks : List ℕ) (rs : List KeyRow)
    → keep_if (in_channel c) (map (numbered i ks) rs)
      ≡ map (numbered i ks) (keep_if (in_channel c) rs)
own_numbered c i ks [] = refl
own_numbered c i ks (r ∷ rs) =
    rw (numbered_channel i ks r, own_numbered c i ks rs)
      (map_if (numbered i ks) (in_channel c r) r (keep_if (in_channel c) rs))
