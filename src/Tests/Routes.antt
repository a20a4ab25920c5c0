-- ===== src/Tests/Routes.antt =====
-- The translator of an OpenAI client before an Anthropic upstream.
use chenni_x_api.Prelude.{◌≡◌, refl, some}
use chenni_x_api.Common.Types.{openai_compatible, anthropic}
use chenni_x_api.Executor.{openai}
use chenni_x_api.Routes.{stream_translator, reads, writes, stream_translator_swapped}

stream_translator_swapped_example :
    (reads (stream_translator openai anthropic) ≡ some openai_compatible)
    × (writes (stream_translator openai anthropic) ≡ some anthropic)
stream_translator_swapped_example = stream_translator_swapped openai anthropic refl
