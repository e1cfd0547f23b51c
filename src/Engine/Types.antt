-- ===== src/Engine/Types.antt =====
-- The engine's own state.
use market_hacker.Base.{Option}
use market_hacker.Clock.{Location}
use market_hacker.Config.{Config}
use market_hacker.Speech.{TtsClient}

pub record Engine (F : Type 0) : Type 0 where
  pub cfg : Config F
  pub tts : Option TtsClient
  pub loc : Location
