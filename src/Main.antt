-- ===== src/Main.antt =====
-- `main` of cmd/orb/main.go, up to the point where the goroutines run. The flags, the environment, the
-- files and the time zone database are what the arguments give; the log is left out.
pub mod Served
pub mod Starts
use Prim.Native.String.{◌++◌}
use market_hacker.Config
use market_hacker.Base.{
  ℕ, String, Bool, Option, none, some, List, [], ◌∷◌, Result, ok, err, if◌then◌else◌, str_eq,
}
use market_hacker.Float.{Float64}
use market_hacker.Clock.{Time, Location}
use market_hacker.Store.{Store, new, set_mode, realtime, historic}
use market_hacker.Speech.{SpeechRequest, SpeechResponse, new_tts_client}
use market_hacker.Engine.{Engine}
use market_hacker.Server.{queue_historic_run}

-- What `main` is given.
pub record Env (F : Type 0) : Type 0 where
  pub historic_flag : Bool
  -- the file of the configuration, decoded, and the symbols of watchlist.Load
  pub config_file : Result (Config.Config F)
  pub watchlist : Result (List String)
  pub openai_key : String
  pub massive_key : String
  -- what the speech service answers, and the random bytes
  pub speech : SpeechRequest → Result SpeechResponse
  pub draw : String → List ℕ
  pub location : String → Location
  pub now : Time

-- What `main` has set up: whether a goroutine calls `eng.Run`, and the queue of historic runs.
pub record Started (F : Type 0) : Type 0 where
  pub engine : Engine F
  pub store : Store F
  pub runs_engine : Bool
  pub queue : Option Time

module _ {F : Type 0} ⦃d : Float64 F⦄ where
  unfoldable pub launch : Env F → Config.Config F → List String → Started F
  launch env cfg wl =
      let old = env.historic_flag in
      record {
        engine = record {
          cfg = cfg;
          tts =
              if old
              then none
              else some (
                  new_tts_client env.openai_key cfg.openai.tts_model cfg.openai.voice
                    cfg.openai.response_format env.speech env.draw);
          loc = env.location cfg.market.timezone;
        };
        store = set_mode (if old then historic else realtime) (new cfg wl env.now);
        runs_engine = if old then Bool.false else Bool.true;
        queue = if old then queue_historic_run env.now none else none;
      }

  -- What is checked before anything is set up. log.Fatalf ends the program with a message.
  unfoldable pub check_env :
      Result (Config.Config F)
      → Result (List String)
      → String
      → Result (Config.Config F × List String)
  check_env (err m) wl key = err ("failed to load config: " ++ m)
  check_env (ok cfg) (err m) key = err ("failed to load watchlist: " ++ m)
  check_env (ok cfg) (ok []) key = err "watchlist is empty"
  check_env (ok cfg) (ok (w ∷ wl)) key =
      if str_eq key "" then err "MASSIVE_API_KEY is missing" else ok (cfg, w ∷ wl)

  unfoldable pub start : Env F → Result (Started F)
  unfolding launch
  start env = elim (check_env (Config.load env.config_file) env.watchlist env.massive_key) [
    | err m ↦ err m
    | ok (cfg, wl) ↦ ok (launch env cfg wl)
  ]
