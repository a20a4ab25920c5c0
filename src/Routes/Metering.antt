-- ===== src/Routes/Metering.antt =====
-- crates/server/src/routes/mod.rs: the usage of an OpenAI stream, by where its chunks are cut.
use chenni_x_api.Prelude.{◌≡◌, ℕ, String, Bool, ◌⊎◌, some, ◌++◌}
use chenni_x_api.Common.Text.{lines}
use chenni_x_api.Common.Types.{Usage, openai_compatible}
use chenni_x_api.Common.Errors.{ProxyError}
use chenni_x_api.Json.{Json}
use chenni_x_api.Adaptor.Usage.{add, extract_usage}
use chenni_x_api.Adaptor.Cuts.{extract_usage_together}
use chenni_x_api.Routes.Stream.{utf8, count_chunk}

module _ (gone : ℕ → Bool) (display : ProxyError → String) (from_str : String → String ⊎ Json) where
  -- Two chunks of an OpenAI stream that both have a usage count both, and one chunk with the lines of
  -- both counts the second alone.
  pub count_chunk_by_cut :
      (a b c : String) (u v acc : Usage)
      → lines c ≡ lines a ++ lines b
      → extract_usage from_str openai_compatible a ≡ some u
      → extract_usage from_str openai_compatible b ≡ some v
      → (count_chunk gone display from_str openai_compatible
            (utf8 b)
            (count_chunk gone display from_str openai_compatible (utf8 a) acc)
          ≡ add (add acc u) v)
        × (count_chunk gone display from_str openai_compatible (utf8 c) acc ≡ add acc v)
  unfolding count_chunk add
  count_chunk_by_cut a b c u v acc h ha hb =
      (rw (ha, hb), rw (extract_usage_together from_str a b c h, ha, hb))
