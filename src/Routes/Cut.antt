-- ===== src/Routes/Cut.antt =====
-- crates/server/src/routes/mod.rs, `SseFrameParser`: the first blank line of a text.
use Prim.Native.Char.{Char, code}
use text.Mathlib.TextLemmas.{cons-append}
use chenni_x_api.Prelude.Tests.{◌==◌, if◌then◌else◌}
use chenni_x_api.Prelude.{
  suc, ◌≤◌, ◌≡◌, refl, sym, ◌∙◌, String, ◌<>◌, Bool, true, false, Option, none, some, arith,
}
use chenni_x_api.Common.Text.{strip_prefix}
use chenni_x_api.Routes.Sse.{cut, text_length}

-- Tests in front of options.
if_some :
    (x : Bool) (m n : Option String) (r q : String)
    → (m ≡ some r → n ≡ some q)
    → (if x then m else none) ≡ some r
    → (if x then n else none) ≡ some q
if_some true m n r q h k = h k
if_some false m n r q h k = cc

if_if_none :
    (x y : Bool) (r q : String)
    → (if x then (if y then some r else none) else none) ≡ none
    → (if x then (if y then some q else none) else none) ≡ none
if_if_none true true r q h = cc
if_if_none true false r q h = refl
if_if_none false y r q h = refl

-- A text that begins with a blank line still does with more text behind it.
strip-append :
    (p s t r : String) → strip_prefix p s ≡ some r → strip_prefix p (s <> t) ≡ some (r <> t)
unfolding strip_prefix
strip-append String.[] s t r h = ground arith
strip-append (String.◌∷◌ c p) String.[] t r h = cc
strip-append (String.◌∷◌ c p) (String.◌∷◌ d s) t r h = rw (cons-append d s t) (
    if_some (code c == code d) (strip_prefix p s) (strip_prefix p (s <> t)) r (r <> t)
      (strip-append p s t r) h)

-- Where the blank line is not at the start, two characters say so.
strip_two :
    (c d : Char) (s t : String)
    → strip_prefix "\n\n" (String.◌∷◌ c (String.◌∷◌ d s)) ≡ none
    → strip_prefix "\n\n" (String.◌∷◌ c (String.◌∷◌ d (s <> t))) ≡ none
unfolding strip_prefix
strip_two c d s t h = if_if_none (10 == code c) (10 == code d) s (s <> t) h

two_gone :
    (c : Char) (s r : String)
    → strip_prefix "\n\n" (String.◌∷◌ c s) ≡ some r
    → suc (text_length r) ≤ text_length (String.◌∷◌ c s)
unfolding strip_prefix text_length
two_gone c String.[] r h = ground arith
two_gone c (String.◌∷◌ d s) r h = ground arith

-- `cut` by what its two parts give.
choose_cut : Char → String → Option String → Option (String × String) → Option (String × String)
choose_cut c s (some rest) later = some (String.[], rest)
choose_cut c s none none = none
choose_cut c s none (some (a, b)) = some (String.◌∷◌ c a, b)

cut_lem :
    (c : Char) (s : String)
    → cut (String.◌∷◌ c s) ≡ choose_cut c s (strip_prefix "\n\n" (String.◌∷◌ c s)) (cut s)
unfolding cut choose_cut
cut_lem c s = ground arith

chosen-append :
    (c : Char) (s t a b : String) (m n : Option String) (k l : Option (String × String))
    → ((r : String) → m ≡ some r → n ≡ some (r <> t))
    → ((a' b' : String) → k ≡ some (a', b') → m ≡ none → (n ≡ none) × (l ≡ some (a', b' <> t)))
    → choose_cut c s m k ≡ some (a, b)
    → choose_cut c (s <> t) n l ≡ some (a, b <> t)
unfolding choose_cut
chosen-append c s t a b (some r) n k l h g e = rw (h r refl) (ground arith)
chosen-append c s t a b none n none l h g e = cc
chosen-append c s t a b none n (some (a', b')) l h g e =
    let both = g a' b' refl refl in rw (both.0, both.1) (ground arith)

none_further :
    (c : Char) (s t a b : String)
    → cut s ≡ some (a, b)
    → strip_prefix "\n\n" (String.◌∷◌ c s) ≡ none
    → strip_prefix "\n\n" (String.◌∷◌ c (s <> t)) ≡ none
none_further c String.[] t a b k n = unfold cut in cc
none_further c (String.◌∷◌ d s) t a b k n = rw (cons-append d s t) (strip_two c d s t n)

pub cut-append : (s t a b : String) → cut s ≡ some (a, b) → cut (s <> t) ≡ some (a, b <> t)
cut-append String.[] t a b h = unfold cut in cc
cut-append (String.◌∷◌ c s) t a b h =
    rw (cons-append c s t, cut_lem c (s <> t))
      (chosen-append c s t a b (strip_prefix "\n\n" (String.◌∷◌ c s)) _ (cut s) _
        (λ r k. rw (← cons-append c s t) (strip-append "\n\n" (String.◌∷◌ c s) t r k))
        (λ a' b' k n. (none_further c s t a' b' k n, cut-append s t a' b' k))
        (sym (cut_lem c s) ∙ h))

-- A round leaves less than it was given.
pub cut_shorter : (s a b : String) → cut s ≡ some (a, b) → suc (text_length b) ≤ text_length s
unfolding choose_cut text_length
cut_shorter String.[] a b h = unfold cut in absurd (cc)
cut_shorter (String.◌∷◌ c s) a b h =
    chosen (strip_prefix "\n\n" (String.◌∷◌ c s)) (cut s) (two_gone c s)
      (λ a' b'. cut_shorter s a' b') (sym (cut_lem c s) ∙ h)
  where
    chosen :
        (m : Option String) (k : Option (String × String))
        → ((r : String) → m ≡ some r → suc (text_length r) ≤ text_length (String.◌∷◌ c s))
        → ((a' b' : String) → k ≡ some (a', b') → suc (text_length b') ≤ text_length s)
        → choose_cut c s m k ≡ some (a, b)
        → suc (text_length b) ≤ text_length (String.◌∷◌ c s)
    chosen (some r) k g l e = ground (arith, g r refl)
    chosen none none g l e = absurd (cc)
    chosen none (some (a', b')) g l e = ground (arith, l a' b' refl)
