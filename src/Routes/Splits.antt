-- ===== src/Routes/Splits.antt =====
-- crates/server/src/routes/mod.rs, `SseFrameParser`: where the chunks are cut does not matter.
use text.Mathlib.TextLemmas
use mathlib.Core.List.{append_assoc}
use chenni_x_api.Prelude.Tests.{Option-cases}
use chenni_x_api.Prelude.{
  ℕ, zero, suc, ◌≤◌, ◌≡◌, refl, subst, inl, inr, String, ◌<>◌, Option, none, some, List, [], ◌∷◌,
  ◌++◌, arith,
}
use chenni_x_api.Routes.Sse.{Frame, cut, frame_of, take_frames, text_length, drain, feed, feed_all}
use chenni_x_api.Routes.Cut.{cut-append, cut_shorter}

-- What is left of a text when its frames are taken.
data Drains : String → List Frame → String → Type 0 where
  stop : {s : String} → cut s ≡ none → Drains s [] s
  step :
      {s f r q : String} {fs : List Frame}
      → cut s ≡ some (f, r)
      → Drains r fs q
      → Drains s (frame_of f ++ fs) q

cut_blank : (s : String) → text_length s ≤ 0 → cut s ≡ none
cut_blank String.[] h = unfold cut in refl
cut_blank (String.◌∷◌ c s) h = unfold text_length in absurd (omega arith)

take_frames-Drains :
    (n : ℕ) (s : String) → text_length s ≤ n → Drains s (take_frames n s).0 (take_frames n s).1
unfolding take_frames
take_frames-Drains zero s h = stop (cut_blank s h)
take_frames-Drains (suc n) s h = elim (Option-cases (cut s)) [
  | inl k ↦ rw (k, take_frames) (stop k)
  | inr ((f, r), k) ↦
      rw (k, take_frames) (step k (take_frames-Drains n r (omega (arith, cut_shorter s f r k))))
]

-- A text drains in one way.
Drains-unique :
    {s q r : String} {fs gs : List Frame} → Drains s fs q → Drains s gs r → (fs ≡ gs) × (q ≡ r)
Drains-unique (stop h) (stop k) = (refl, refl)
Drains-unique (stop h) (step k e) = absurd (cc)
Drains-unique (step h d) (stop k) = absurd (cc)
Drains-unique {r} (step {f} {fs} h d) (step {f = f'} {r = r'} {fs = fs'} k e) =
    let same = Drains-unique d (subst (λ x. Drains x fs' r) (cc) e) in
    let first : f ≡ f' = cc in (rw (first, same.0), same.1)

Drains-append :
    {s q r : String} {fs gs : List Frame} (t : String)
    → Drains s fs q
    → Drains (q <> t) gs r
    → Drains (s <> t) (fs ++ gs) r
Drains-append t (stop h) e = e
Drains-append {gs} t (step {f} {fs} h d) e =
    rw (append_assoc (frame_of f) fs gs) (step (cut-append _ t _ _ h) (Drains-append t d e))

drain-Drains : (s : String) → Drains s (drain s).0 (drain s).1
unfolding drain
drain-Drains s = take_frames-Drains (text_length s) s (omega arith)

Drains-rest : {s q : String} {fs : List Frame} → Drains s fs q → cut q ≡ none
Drains-rest (stop h) = h
Drains-rest (step h d) = Drains-rest d

-- The text of the chunks that are UTF-8.
abbrev pub joined : List (Option String) → String
joined [] = ""
joined (none ∷ cs) = joined cs
joined (some text ∷ cs) = text <> joined cs

feed_all-Drains :
    (cs : List (Option String)) (b : String)
    → cut b ≡ none
    → Drains (b <> joined cs) (feed_all cs b).0 (feed_all cs b).1
unfolding feed_all feed
feed_all-Drains [] b h = rw (TextLemmas.append-nil b) (stop h)
feed_all-Drains (none ∷ cs) b h = feed_all-Drains cs b h
feed_all-Drains (some text ∷ cs) b h = rw (← TextLemmas.append_assoc b text (joined cs)) (
    Drains-append (joined cs) (drain-Drains (b <> text))
      (feed_all-Drains cs (drain (b <> text)).1 (Drains-rest (drain-Drains (b <> text)))))

-- For every cutting of a stream into chunks, the parser gives the frames, and keeps the rest, that
-- it gives and keeps when all the text of the chunks that are UTF-8 comes in one chunk.
pub feed_all-joined : (cs : List (Option String)) → feed_all cs "" ≡ feed (some (joined cs)) ""
unfolding feed
feed_all-joined cs =
    let same = Drains-unique (feed_all-Drains cs "" cut_nothing) (drain-Drains ("" <> joined cs)) in
    λ i. (same.0 i, same.1 i)
  where
    cut_nothing : cut "" ≡ none
    cut_nothing = unfold cut in refl

-- Whatever comes, the loop ends with no whole frame left in the buffer.
pub feed_drains : (text buffer : String) → cut (feed (some text) buffer).1 ≡ none
unfolding feed
feed_drains text buffer = Drains-rest (drain-Drains (buffer <> text))
