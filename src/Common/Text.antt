-- ===== src/Common/Text.antt =====
-- The operations of Rust's `str` that the gateway uses, on native strings: `trim` over the
-- White_Space code points, `split`, `lines`, `strip_prefix`, `contains`, and `{}` of an integer.
use Prim.Native.Char.{code}
use chenni_x_api.Prelude.Tests.{◌==◌, leb, ltb, if◌then◌else◌}
use chenni_x_api.Prelude.{
  ℕ, zero, suc, ◌/◌, ◌%◌, String, ◌<>◌, ◌≡◌, refl, Bool, true, false, ◌&&◌, ◌||◌, Option, none,
  some, List, [], ◌∷◌,
}

-- `char::is_whitespace`.
unfoldable pub is_space : ℕ → Bool
is_space c =
    (leb 9 c && leb c 13)
    || c == 32
    || c == 0x85
    || c == 0xA0
    || c == 0x1680
    || (leb 0x2000 c && leb c 0x200A)
    || c == 0x2028
    || c == 0x2029
    || c == 0x202F
    || c == 0x205F
    || c == 0x3000

-- `str::is_empty`.
unfoldable pub is_blank : String → Bool
is_blank String.[] = true
is_blank (String.◌∷◌ c s) = false

trim_start : String → String
unfolding is_space
trim_start String.[] = String.[]
trim_start (String.◌∷◌ c s) = if is_space (code c) then trim_start s else String.◌∷◌ c s

trim_end : String → String
unfolding is_space is_blank
trim_end String.[] = String.[]
trim_end (String.◌∷◌ c s) =
    let r = trim_end s in if is_space (code c) && is_blank r then String.[] else String.◌∷◌ c r

unfoldable pub trim : String → String
unfolding trim_start trim_end
trim s = trim_end (trim_start s)

-- `s.split(sep)`: one more part than there are separators.
split_go : ℕ → String → String → List String
split_go sep word String.[] = word ∷ []
split_go sep word (String.◌∷◌ c s) =
    if code c == sep
    then word ∷ split_go sep String.[] s
    else split_go sep (word <> String.◌∷◌ c String.[]) s

unfoldable pub split : ℕ → String → List String
unfolding split_go
split sep s = split_go sep String.[] s

-- Without the `\r` before a `\n`.
drop_return : String → String
drop_return String.[] = String.[]
drop_return (String.◌∷◌ c String.[]) = if code c == 13 then String.[] else String.◌∷◌ c String.[]
drop_return (String.◌∷◌ c (String.◌∷◌ d s)) = String.◌∷◌ c (drop_return (String.◌∷◌ d s))

-- `s.lines()`: a last empty part is no line.
drop_last_blank : List String → List String
unfolding is_blank drop_return
drop_last_blank [] = []
drop_last_blank (w ∷ []) = if is_blank w then [] else w ∷ []
drop_last_blank (w ∷ v ∷ ws) = drop_return w ∷ drop_last_blank (v ∷ ws)

unfoldable pub lines : String → List String
unfolding split drop_last_blank
lines s = drop_last_blank (split 10 s)

-- `s.strip_prefix(p)`, the prefix first.
unfoldable pub strip_prefix : String → String → Option String
strip_prefix String.[] s = some s
strip_prefix (String.◌∷◌ c p) String.[] = none
strip_prefix (String.◌∷◌ c p) (String.◌∷◌ d s) = if code c == code d then strip_prefix p s else none

begins : String → String → Bool
unfolding strip_prefix
begins p s = elim (strip_prefix p s) [ none ↦ false | some _ ↦ true ]

-- `s.contains(p)`, the part first.
unfoldable pub contains : String → String → Bool
unfolding begins
contains p String.[] = begins p String.[]
contains p (String.◌∷◌ c s) = begins p (String.◌∷◌ c s) || contains p s

digit : ℕ → String
digit d =
    if d == 0
    then "0"
    else if d == 1
    then "1"
    else if d == 2
    then "2"
    else if d == 3
    then "3"
    else if d == 4
    then "4"
    else if d == 5
    then "5"
    else if d == 6
    then "6"
    else if d == 7
    then "7"
    else if d == 8
    then "8"
    else "9"

decimal_go : ℕ → ℕ → String
unfolding digit
decimal_go zero n = String.[]
decimal_go (suc fuel) n =
    let rest = decimal_go fuel (n / 10) in if ltb n 10 then digit n else rest <> digit (n % 10)

-- `s.trim_end_matches(c)`.
unfoldable pub trim_end_matches : ℕ → String → String
unfolding is_blank
trim_end_matches p String.[] = String.[]
trim_end_matches p (String.◌∷◌ c s) =
    let r = trim_end_matches p s in if code c == p && is_blank r then String.[] else String.◌∷◌ c r

-- `{}` of a non-negative `i64`, which has at most 19 digits.
unfoldable pub decimal : ℕ → String
unfolding decimal_go
decimal n = decimal_go 20 n

trim_both : trim "  a b \t" ≡ "a b"
unfolding trim
trim_both = refl

split_groups : split 44 "default,vip," ≡ "default" ∷ "vip" ∷ "" ∷ []
unfolding split
split_groups = refl

lines_trailing : lines "a\r\n\nb\n" ≡ "a" ∷ "" ∷ "b" ∷ []
unfolding lines
lines_trailing = refl

decimal_2048 : decimal 2048 ≡ "2048"
unfolding decimal
decimal_2048 = refl

contains_middle : contains "ext_len" "context_length" ≡ true
unfolding contains
contains_middle = refl
