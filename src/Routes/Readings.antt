-- ===== src/Routes/Readings.antt =====
-- crates/server/src/routes/mod.rs, `stream_sse_response`: the usage of the chunks of a stream, each
-- by itself, and their sum.
use chenni_x_api.Prelude.{
  ℕ, ◌+◌, ◌%◌, ◌<◌, ◌≡◌, refl, String, ◌⊎◌, Bool, Option, none, some, List, [], ◌∷◌, ◌++◌, arith,
}
use chenni_x_api.Common.Types.{Usage, ChannelProvider}
use chenni_x_api.Common.Errors.{ProxyError}
use chenni_x_api.Json.{Json}
use chenni_x_api.Adaptor.Usage.{add, extract_usage}
use chenni_x_api.Routes.Stream.{Upstream, chunk, broken, lossy, add_some, count_chunk}

abbrev pub sum_of : (Usage → ℕ) → List Usage → ℕ
sum_of f [] = 0
sum_of f (u ∷ us) = f u + sum_of f us

-- A counter is a `u64`.
abbrev pub Fits : ℕ → Type 0
Fits n = n < 18_446_744_073_709_551_616

abbrev pub AllFit : Usage → Type 0
AllFit u = Fits u.prompt_tokens × Fits u.completion_tokens × Fits u.total_tokens

-- Each counter is the sum of that of the usages, modulo 2^64.
abbrev pub Summed : (Usage → ℕ) → Usage → List Usage → Usage → Type 0
Summed f acc us found = f found ≡ (f acc + sum_of f us) % 18_446_744_073_709_551_616

abbrev pub AllSummed : Usage → List Usage → Usage → Type 0
AllSummed acc us found =
    Summed (λ u. u.prompt_tokens) acc us found
    × Summed (λ u. u.completion_tokens) acc us found
    × Summed (λ u. u.total_tokens) acc us found

AllSummed-add :
    (acc u found : Usage) (us : List Usage)
    → AllSummed (add acc u) us found
    → AllSummed acc (u ∷ us) found
unfolding add
AllSummed-add acc u found us (p, c, t) = (omega arith, omega arith, omega arith)

add-AllFit : (acc u : Usage) → AllFit (add acc u)
unfolding add
add-AllFit acc u = (omega arith, omega arith, omega arith)

abbrev pub then_read : Option Usage → List Usage → List Usage
then_read none us = us
then_read (some u) us = u ∷ us

module _ (gone : ℕ → Bool) (display : ProxyError → String) (from_str : String → String ⊎ Json) where
  -- The usages that the adaptor reads in the chunks, each by itself.
  abbrev pub readings : ChannelProvider → List Upstream → List Usage
  readings provider [] = []
  readings provider (chunk b ∷ us) =
      then_read (extract_usage from_str provider (lossy b)) (readings provider us)
  readings provider (broken e ∷ us) = readings provider us

  -- The usage of chunks, counted one after the other.
  abbrev pub count_all : ChannelProvider → List Upstream → Usage → Usage
  count_all provider [] acc = acc
  count_all provider (chunk b ∷ us) acc =
      count_all provider us (count_chunk gone display from_str provider b acc)
  count_all provider (broken e ∷ us) acc = count_all provider us acc

  pub count_all-append :
      (provider : ChannelProvider) (us vs : List Upstream) (acc : Usage)
      → count_all provider (us ++ vs) acc ≡ count_all provider vs (count_all provider us acc)
  count_all-append provider [] vs acc = refl
  count_all-append provider (chunk b ∷ us) vs acc = count_all-append provider us vs _
  count_all-append provider (broken e ∷ us) vs acc = count_all-append provider us vs acc

  read-AllSummed :
      (r : Option Usage) (us : List Usage) (later : Usage → Usage) (acc : Usage)
      → AllFit acc
      → ((a : Usage) → AllFit a → AllSummed a us (later a))
      → AllSummed acc (then_read r us) (later (add_some gone display from_str r acc))
  unfolding add_some
  read-AllSummed none us later acc fits h = h acc fits
  read-AllSummed (some u) us later acc fits h =
      AllSummed-add acc u (later (add acc u)) us (h (add acc u) (add-AllFit acc u))

  pub count_all-AllSummed :
      (provider : ChannelProvider) (us : List Upstream) (acc : Usage)
      → AllFit acc
      → AllSummed acc (readings provider us) (count_all provider us acc)
  unfolding count_chunk
  count_all-AllSummed provider [] acc (p, c, t) = (omega arith, omega arith, omega arith)
  count_all-AllSummed provider (chunk b ∷ us) acc fits =
      read-AllSummed (extract_usage from_str provider (lossy b)) (readings provider us)
        (count_all provider us) acc fits (count_all-AllSummed provider us)
  count_all-AllSummed provider (broken e ∷ us) acc fits = count_all-AllSummed provider us acc fits
