-- ===== src/Speech.antt =====
-- internal/openai/tts.go: the client of the speech service. The HTTP client and the source of random
-- bytes are parameters.
use Prim.Native.String.{◌++◌}
use market_hacker.Base.{
  ℕ, ◌/◌, ◌%◌, String, Bool, not, ◌||◌, List, [], ◌∷◌, zero, suc, ltb, str_eq, if◌then◌else◌,
  Result, ok, err,
}
use market_hacker.Clock.{decimal}

-- the body of a request to the service
pub record SpeechRequest : Type 0 where
  pub model : String
  pub voice : String
  pub input : String
  pub response_format : String

-- the response of the service, as far as it is read: the status code, the first 4096 bytes of the body
-- as a text, and the body, or the error that ended its reading
pub record SpeechResponse : Type 0 where
  pub status_code : ℕ
  pub excerpt : String
  pub body : Result (List ℕ)

-- `hc` gives the answer to a request, or the error of NewRequestWithContext or of Do; `draw` gives the
-- bytes that `randID` reads for the text.
pub record TtsClient : Type 0 where
  pub api_key : String
  pub model : String
  pub voice : String
  pub response_format : String
  pub hc : SpeechRequest → Result SpeechResponse
  pub draw : String → List ℕ

abbrev pub new_tts_client :
    String
    → String
    → String
    → String
    → (SpeechRequest → Result SpeechResponse)
    → (String → List ℕ)
    → TtsClient
new_tts_client key model voice format hc draw = record {
  api_key = key;
  model = model;
  voice = voice;
  response_format = format;
  hc = hc;
  draw = draw;
}

unfoldable pub enabled : TtsClient → Bool
enabled c = not (str_eq c.api_key "")

-- a text of a list, or none past its end
unfoldable pub text_at : ℕ → List String → String
text_at n [] = ""
text_at zero (x ∷ xs) = x
text_at (suc n) (x ∷ xs) = text_at n xs

abbrev pub hex_digits : List String
hex_digits =
    "0" ∷ "1" ∷ "2" ∷ "3" ∷ "4" ∷ "5" ∷ "6" ∷ "7" ∷ "8" ∷ "9" ∷ "a" ∷ "b" ∷ "c" ∷ "d" ∷ "e" ∷ "f"
    ∷ []

-- hex.EncodeToString
unfoldable pub hex : List ℕ → String
unfolding text_at
hex [] = ""
hex (b ∷ bs) = text_at (b / 16) hex_digits ++ (text_at (b % 16) hex_digits ++ hex bs)

-- `randID`, on the bytes that it reads
abbrev pub rand_id : List ℕ → String
rand_id bytes = hex bytes

-- `Synthesize`: the audio id and the bytes, or the error.
unfoldable pub synthesize : TtsClient → String → Result (String × List ℕ)
unfolding hex
synthesize c text =
    let request : SpeechRequest = record {
      model = c.model;
      voice = c.voice;
      input = text;
      response_format = c.response_format;
    } in
    if str_eq c.api_key "" then err "openai api key missing" else elim (c.hc request) [
      | err m ↦ err m
      | ok r ↦
          if ltb r.status_code 200 || ltb 299 r.status_code
          then err
              ("openai tts failed: status=" ++ (decimal r.status_code ++ (" body=" ++ r.excerpt)))
          else elim r.body [ err m ↦ err m | ok bytes ↦ ok (rand_id (c.draw text), bytes) ]
    ]
