-- ===== src/Server/Audio/Served.antt =====
-- From an alert to its audio: what `say` stores, `handleAudio` serves under the path that the page
-- asks for.
use Prim.Native.Char.{Char}
use Prim.Native.String.{◌++◌ as glue, count}
use Prim.Native.String.append
use Prim.Native.String.count
use market_hacker.Base.{
  ℕ, zero, suc, ◌+◌, ◌/◌, ◌%◌, ◌≡◌, refl, ap, ◌∙◌, String, true, false, some, List, [], ◌∷◌, ◌++◌,
  arith, All, All-append, str_eq, str_eq_self, str_eq_ne, ok, lookup-upsert_self,
}
use market_hacker.Float.{Float64}
use market_hacker.Clock.{Time}
use market_hacker.Store.{Event, Store, store_audio, get_audio, add_event}
use market_hacker.Nato.{is_space, codes}
use market_hacker.Speech.{TtsClient, enabled, synthesize, text_at, hex, hex_digits}
use market_hacker.Engine.{Engine, emit, event, say}
use market_hacker.Server.Audio.{
  after_prefix, trim_prefix, trim_suffix, get_method, head_method, handle_audio, audio_bytes,
  audio_head,
}

after_prefix-append : (p s : String) → after_prefix p (glue p s) ≡ some s
unfolding after_prefix
after_prefix-append String.[] s = rw (append.nil s) refl
after_prefix-append (String.◌∷◌ c p) s =
    rw (append.cons c p s) (ground (arith, after_prefix-append p s))

trim_prefix-append : (p s : String) → trim_prefix p (glue p s) ≡ s
unfolding trim_prefix
trim_prefix-append p s = rw (trim_prefix, after_prefix-append p s) refl

count-append : (s t : String) → count (glue s t) ≡ count s + count t
count-append String.[] t = rw (append.nil t, count.nil) (omega arith)
count-append (String.◌∷◌ c s) t =
    rw (append.cons c s t)
      (ground (arith, count.cons c s, count.cons c (glue s t), count-append s t))

-- No space stands in a text.
abbrev pub Visible : String → Type 0
Visible s = All (λ c. is_space c ≡ false) (codes s)

codes-append : (s t : String) → codes (glue s t) ≡ codes s ++ codes t
codes-append String.[] t = rw (append.nil t) refl
codes-append (String.◌∷◌ c s) t = rw (append.cons c s t, codes-append s t) refl

Visible-append : (s t : String) → Visible s → Visible t → Visible (glue s t)
Visible-append s t h k = rw (codes-append s t) (All-append _ (codes s) (codes t) h k)

text_at-Visible : (n : ℕ) (xs : List String) → All Visible xs → Visible (text_at n xs)
unfolding text_at
text_at-Visible n [] h = tt
text_at-Visible zero (x ∷ xs) h = h.0
text_at-Visible (suc n) (x ∷ xs) h = text_at-Visible n xs h.1

hex_digits-Visible : All Visible hex_digits
unfolding is_space
hex_digits-Visible = ground arith

hex-Visible : (bytes : List ℕ) → Visible (hex bytes)
unfolding hex
hex-Visible [] = tt
hex-Visible (b ∷ bytes) =
    Visible-append _ _ (text_at-Visible (b / 16) hex_digits hex_digits-Visible) (
      Visible-append _ _ (text_at-Visible (b % 16) hex_digits hex_digits-Visible)
        (hex-Visible bytes))

-- The end of a text is cut where it is.
trim_suffix-append :
    (c : Char) (q s : String) → trim_suffix (String.◌∷◌ c q) (glue s (String.◌∷◌ c q)) ≡ s
unfolding trim_suffix
trim_suffix-append c q String.[] =
    rw (append.nil (String.◌∷◌ c q), str_eq_self (String.◌∷◌ c q)) refl
trim_suffix-append c q (String.◌∷◌ b s) =
    let full = glue s (String.◌∷◌ c q) in
    let longer : str_eq (String.◌∷◌ b full) (String.◌∷◌ c q) ≡ false = str_eq_ne _ _ λ same.
      let counts = ap count same in
      absurd (ground (arith, count.cons b full, count-append s (String.◌∷◌ c q))) in
    rw (append.cons b s (String.◌∷◌ c q)) (ground (arith, trim_suffix-append c q s))

-- An id of `Synthesize` is made of the digits of hex.EncodeToString.
synthesize-Visible :
    (c : TtsClient) (text id : String) (bytes : List ℕ)
    → synthesize c text ≡ ok (id, bytes)
    → Visible id
unfolding synthesize
synthesize-Visible c text id bytes h =
    let drawn = hex-Visible (c.draw text) in
    let same : hex (c.draw text) ≡ id = ground arith in rw (← same) drawn

module _ {F : Type 0} ⦃d : Float64 F⦄ (e : Engine F) (trim : String → String)
    (keeps : (t : String) → Visible t → trim t ≡ t) where
  path_of : String → String
  path_of id = glue "/api/audio/" (glue id ".mp3")

  -- What is stored under an id without a space is served under its path.
  stored-served :
      (id : String) (b : ℕ) (bs : List ℕ) (s : Store F)
      → Visible id
      → get_audio id s ≡ some (b ∷ bs)
      → (handle_audio trim get_method (path_of id) s ≡ audio_bytes (b ∷ bs))
        × (handle_audio trim head_method (path_of id) s ≡ audio_head)
  unfolding handle_audio path_of is_space
  stored-served id b bs s seen there =
      let file = glue id ".mp3" in
      let asked : trim (trim_prefix "/api/audio/" (glue "/api/audio/" file)) ≡ file =
        ap trim (trim_prefix-append "/api/audio/" file)
        ∙ keeps file (Visible-append id ".mp3" seen (ground arith)) in
      let named : str_eq file "" ≡ false = str_eq_ne _ _ λ same.
        let counts = ap count same in absurd (ground (arith, count-append id ".mp3", count.nil)) in
      let cut : trim_suffix ".mp3" file ≡ id = trim_suffix-append _ _ id in
      (rw (asked, named, cut, there) refl, rw (asked, named, cut, there) refl)

  say-stores :
      (c : TtsClient) (text id : String) (bytes : List ℕ) (s : Store F)
      → e.tts ≡ some c
      → enabled c ≡ true
      → synthesize c text ≡ ok (id, bytes)
      → say e text s ≡ (store_audio id bytes s, id)
  unfolding say
  say-stores c text id bytes s client on answered = rw (client, on, answered) refl

  -- Where `trim` keeps a text in which no space stands and the speech service answers with bytes, what
  -- is emitted with the result of `say` is one more event in the store, with the symbol and the message,
  -- and a GET of the path of the audio id in that event is answered with the bytes, and a HEAD of it
  -- with the headers.
  pub announced_audio_served :
      (c : TtsClient) (ts : Time) (typ name msg level text id : String) (b : ℕ) (bs : List ℕ)
      (s : Store F)
      → e.tts ≡ some c
      → enabled c ≡ true
      → synthesize c text ≡ ok (id, b ∷ bs)
      → let (s1, audio) = say e text s in
        let s2 = emit e ts typ name msg audio level s1 in
        (ev : Event) × (s2 ≡ add_event ev s1)
        × (ev.symbol ≡ name)
        × (ev.message ≡ msg)
        × (let path = glue "/api/audio/" (glue ev.audio_id ".mp3") in
            (handle_audio trim get_method path s2 ≡ audio_bytes (b ∷ bs))
            × (handle_audio trim head_method path s2 ≡ audio_head))
  unfolding emit event add_event get_audio store_audio path_of
  announced_audio_served c ts typ name msg level text id b bs s client on answered =
      rw (say-stores c text id (b ∷ bs) s client on answered) (
        event e ts typ name msg id level,
        refl,
        refl,
        refl,
        stored-served id b bs _ (synthesize-Visible c text id (b ∷ bs) answered)
            (lookup-upsert_self id (b ∷ bs) (λ old. b ∷ bs) s.audio),
      )
