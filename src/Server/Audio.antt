-- ===== src/Server/Audio.antt =====
-- `handleState` and `handleAudio` of internal/server/api.go, on the method and the path of a request.
pub mod Served
use Prim.Native.Char.{code}
use market_hacker.Base.{
  String, Bool, ◌||◌, ℕ, none, some, List, [], ◌∷◌, str_eq, if◌then◌else◌, Option, ◌==◌,
}
use market_hacker.Float.{Float64}
use market_hacker.Clock.{Time, Location, is_zero, at_time, date_only}
use market_hacker.Config.{Config}
use market_hacker.Store.{Times, Store, set_times, get_audio, snapshot, Snapshot}

pub data StateAnswer (F : Type 0) : Type 0 where
  state_refused : StateAnswer F
  state : Snapshot F → StateAnswer F

pub data AudioAnswer : Type 0 where
  audio_refused audio_missing_id audio_not_found audio_head : AudioAnswer
  audio_bytes : List ℕ → AudioAnswer

pub data Method : Type 0 where
  get_method head_method other_method : Method

after_prefix : String → String → Option String
after_prefix String.[] s = some s
after_prefix (String.◌∷◌ c p) String.[] = none
after_prefix (String.◌∷◌ c p) (String.◌∷◌ b s) =
    let rest = after_prefix p s in if code c == code b then rest else none

-- strings.TrimPrefix
unfoldable pub trim_prefix : String → String → String
unfolding after_prefix
trim_prefix p s = elim (after_prefix p s) [ none ↦ s | some rest ↦ rest ]

-- strings.TrimSuffix: at most one end of a string is as long as `q`.
unfoldable pub trim_suffix : String → String → String
trim_suffix q String.[] = String.[]
trim_suffix q (String.◌∷◌ c s) =
    let rest = trim_suffix q s in if str_eq (String.◌∷◌ c s) q then String.[] else String.◌∷◌ c rest

module _ {F : Type 0} ⦃d : Float64 F⦄ where
  unfoldable pub handle_state :
      Config F → Location → Bool → Time → Store F → Store F × StateAnswer F
  handle_state cfg loc is_get now s =
      let w = s.times in
      let unset =
        is_zero w.open_ny || (is_zero w.sel_ny || (is_zero w.cutoff_ny || is_zero w.exit_ny)) in
      let day = date_only loc now in
      let fresh : Times = record {
        open_ny = at_time loc day cfg.market.open_time;
        sel_ny = at_time loc day cfg.market.selection_time;
        cutoff_ny = at_time loc day cfg.market.vwap_cross_cutoff;
        exit_ny = at_time loc day cfg.market.force_exit_time;
      } in
      let s1 = if unset then set_times fresh s else s in
      if is_get then (s1, state (snapshot loc now s1)) else (s, state_refused)

  -- `trim` is strings.TrimSpace.
  unfoldable pub handle_audio : (String → String) → Method → String → Store F → AudioAnswer
  handle_audio trim other_method path s = audio_refused
  handle_audio trim method path s =
      let p = trim (trim_prefix "/api/audio/" path) in
      if str_eq p "" then audio_missing_id else elim (get_audio (trim_suffix ".mp3" p) s) [
        | none ↦ audio_not_found
        | some [] ↦ audio_not_found
        | some (b ∷ bs) ↦ elim method [
          | get_method ↦ audio_bytes (b ∷ bs)
          | head_method ↦ audio_head
          | other_method ↦ audio_refused
        ]
      ]
