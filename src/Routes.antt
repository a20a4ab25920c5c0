-- ===== src/Routes.antt =====
-- crates/server/src/routes/mod.rs, `stream_sse_response`: which translator a stream goes through.
pub mod Sse
pub mod Cut
pub mod Splits
pub mod Stream
pub mod Settlement
pub mod Metering
pub mod Readings
pub mod Counting
pub mod Proxy
pub mod Outcomes
pub mod Permission
use chenni_x_api.Prelude.Tests.{if◌then◌else◌}
use chenni_x_api.Prelude.{◌≡◌, Bool, true, false, not, ◌&&◌, Option, none, some, arith, refl}
use chenni_x_api.Common.Types.{ChannelProvider, openai_compatible, anthropic, same_provider}
use chenni_x_api.Executor.{EntryFormat, openai, claude, provider}

-- `OpenaiToClaudeStreamState`, `ClaudeToOpenaiStreamState`, or the chunks as they are.
pub data StreamTranslator : Type 0 where
  openai_to_claude claude_to_openai passthrough : StreamTranslator

-- `==` on entry formats.
abbrev pub same_format : EntryFormat → EntryFormat → Bool
same_format openai openai = true
same_format claude claude = true
same_format _ _ = false

unfoldable pub needs_translation : EntryFormat → ChannelProvider → Bool
needs_translation entry_format adaptor_provider =
    not (same_provider (provider entry_format) adaptor_provider)

unfoldable pub uses_o2c : EntryFormat → ChannelProvider → Bool
unfolding needs_translation
uses_o2c entry_format adaptor_provider =
    needs_translation entry_format adaptor_provider
    && same_format entry_format openai
    && same_provider adaptor_provider anthropic

unfoldable pub uses_c2o : EntryFormat → ChannelProvider → Bool
unfolding needs_translation
uses_c2o entry_format adaptor_provider =
    needs_translation entry_format adaptor_provider
    && same_format entry_format claude
    && same_provider adaptor_provider openai_compatible

unfoldable pub stream_translator : EntryFormat → ChannelProvider → StreamTranslator
unfolding uses_o2c uses_c2o
stream_translator entry_format adaptor_provider =
    if uses_o2c entry_format adaptor_provider
    then openai_to_claude
    else if uses_c2o entry_format adaptor_provider
    then claude_to_openai
    else passthrough

-- The format that a translator reads, and the one that it writes, where it is of one format.
abbrev pub reads : StreamTranslator → Option ChannelProvider
reads openai_to_claude = some openai_compatible
reads claude_to_openai = some anthropic
reads passthrough = none

abbrev pub writes : StreamTranslator → Option ChannelProvider
writes openai_to_claude = some anthropic
writes claude_to_openai = some openai_compatible
writes passthrough = none

-- Where the client and the upstream speak different formats, the translator that a stream goes
-- through reads the format of the client and writes the format of the upstream.
pub stream_translator_swapped :
    (entry_format : EntryFormat) (adaptor_provider : ChannelProvider)
    → same_provider (provider entry_format) adaptor_provider ≡ false
    → (reads (stream_translator entry_format adaptor_provider) ≡ some (provider entry_format))
      × (writes (stream_translator entry_format adaptor_provider) ≡ some adaptor_provider)
unfolding stream_translator needs_translation uses_o2c uses_c2o
stream_translator_swapped openai anthropic h = (refl, refl)
stream_translator_swapped claude openai_compatible h = (refl, refl)
stream_translator_swapped openai openai_compatible h = ground arith
stream_translator_swapped claude anthropic h = ground arith
