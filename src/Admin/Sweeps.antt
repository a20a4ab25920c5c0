-- ===== src/Admin/Sweeps.antt =====
-- crates/server/src/admin/auth.rs: the sweeps of the sessions and the store.
use chenni_x_api.Prelude.Lists.{All, All-map, All-take, All-keep_if, keep_if, take, any}
use chenni_x_api.Prelude.Maps.{get, remove, get-remove, string_eq}
use chenni_x_api.Prelude.Tests.{Bool-cases, if◌then◌else◌}
use chenni_x_api.Prelude.{
  ℕ, ◌≡◌, refl, ◌∙◌, ◌≤◌, String, str_eq, Bool, true, false, not, Option, none, some, List, [], ◌∷◌,
  inl, inr, sym, eq_iff, arith,
}
use chenni_x_api.Admin.Sessions.{
  Session, SessionStore, is_fresh, AdminDb, with_token, remove_all, Visit, is_stale, expired_keys,
  sweep, if_fresh, visit_session,
}

-- The map yields entries it holds.
abbrev pub Yields : Visit → Type 0
Yields visit = (s : SessionStore) → All (λ (e : String × Session). get e.0 s ≡ some e.1) (visit s)

stale_later :
    (m n : ℕ) (v : Session) → m ≤ n → not (is_fresh m v) ≡ true → if_fresh n (some v) ≡ none
stale_later m n (uid, t) h f = ground arith

Gone : ℕ → SessionStore → String → Type 0
Gone now s k = if_fresh now (get k s) ≡ none

if_fresh-if :
    (now : ℕ) (b : Bool) (o : Option Session)
    → if_fresh now o ≡ none
    → if_fresh now (if b then none else o) ≡ none
if_fresh-if now true o h = refl
if_fresh-if now false o h = h

remove-Gone :
    (now : ℕ) (k : String) (s : SessionStore) (ks : List String)
    → All (Gone now s) ks
    → All (Gone now (remove k s)) ks
unfolding Gone
remove-Gone now k s [] h = tt
remove-Gone now k s (j ∷ ks) h =
    (rw (get-remove j k s) (if_fresh-if now (str_eq k j) (get j s) h.0), remove-Gone now k s ks h.1)

-- To remove what is gone changes no fresh session.
fresh-remove :
    (now : ℕ) (j k : String) (s : SessionStore)
    → Gone now s k
    → if_fresh now (get j (remove k s)) ≡ if_fresh now (get j s)
unfolding Gone
fresh-remove now j k s h = elim (Bool-cases (str_eq k j)) [
  | inl e ↦ rw (get-remove j k s, e) (sym h ∙ rw ((eq_iff k j).0 e))
  | inr e ↦ rw (get-remove j k s, e)
]

fresh-remove_all :
    (now : ℕ) (j : String) (ks : List String) (s : SessionStore)
    → All (Gone now s) ks
    → if_fresh now (get j (remove_all ks s)) ≡ if_fresh now (get j s)
unfolding remove_all
fresh-remove_all now j [] s h = refl
fresh-remove_all now j (k ∷ ks) s h =
    fresh-remove_all now j ks (remove k s) (remove-Gone now k s ks h.1) ∙ fresh-remove now j k s h.0

-- A stale entry of the store names a session that is gone.
stale-Gone :
    (m n : ℕ) (s : SessionStore)
    → m ≤ n
    → (e : String × Session) → get e.0 s ≡ some e.1
    → is_stale m e ≡ true
    → Gone n s e.0
unfolding Gone
stale-Gone m n s h (k, v) g b = rw g (stale_later m n v h b)

fresh-sweep :
    (visit : Visit)
    → Yields visit
    → (m n : ℕ) → m ≤ n
    → (j : String) (s : SessionStore) → if_fresh n (get j (sweep visit m s)) ≡ if_fresh n (get j s)
unfolding sweep expired_keys
fresh-sweep visit y m n h j s = fresh-remove_all n j (expired_keys m (visit s)) s (
    All-map (Gone n s) (λ (e : String × Session). e.0) (take 64 (keep_if (is_stale m) (visit s)))
      (All-take (λ (e : String × Session). Gone n s e.0) 64 (keep_if (is_stale m) (visit s))
        (All-keep_if (λ (e : String × Session). Gone n s e.0)
          (λ (e : String × Session). get e.0 s ≡ some e.1) (is_stale m) (stale-Gone m n s h)
          (visit s) (y s))))

gone_later : (m n : ℕ) (o : Option Session) → m ≤ n → if_fresh m o ≡ none → if_fresh n o ≡ none
gone_later m n none h e = refl
gone_later m n (some (uid, t)) h e = ground arith

fresh-visit_session :
    (visit : Visit)
    → Yields visit
    → (db : AdminDb) (n₁ n₂ n₃ n : ℕ) → (n₁ ≤ n) × (n₂ ≤ n) × (n₃ ≤ n)
    → (j token : String) (s : SessionStore) (o : Option Session) → if_fresh n₁ (get token s) ≡ o
    → if_fresh n (get j (visit_session db visit n₂ n₃ token o s).1) ≡ if_fresh n (get j s)
unfolding visit_session Gone
fresh-visit_session visit y db n₁ n₂ n₃ n (h₁, h₂, h₃) j token s (some (uid, t)) e =
    elim (Bool-cases (any (is_stale n₂) (visit s))) [
      | inl b ↦ rw b (fresh-sweep visit y n₃ n h₃ j s)
      | inr b ↦ rw b
    ]
fresh-visit_session visit y db n₁ n₂ n₃ n (h₁, h₂, h₃) j token s none e =
    fresh-sweep visit y n₂ n h₂ j (remove token s)
    ∙ fresh-remove n j token s (gone_later n₁ n (get token s) h₁ e)

pub fresh-asked :
    (visit : Visit)
    → Yields visit
    → (db : AdminDb) (n₁ n₂ n₃ n : ℕ) → (n₁ ≤ n) × (n₂ ≤ n) × (n₃ ≤ n)
    → (j : String) (token : Option String) (s : SessionStore)
    → if_fresh n (get j (with_token db visit n₁ n₂ n₃ token s).1) ≡ if_fresh n (get j s)
unfolding with_token
fresh-asked visit y db n₁ n₂ n₃ n h j none s = refl
fresh-asked visit y db n₁ n₂ n₃ n h j (some token) s =
    fresh-visit_session visit y db n₁ n₂ n₃ n h j token s (if_fresh n₁ (get token s)) refl
