-- ===== src/Main/Served.antt =====
-- What the server does to the store, one after another: historic runs, of which there is one at a time
-- (see Server/OneRun), and requests about the filters between them.
use market_hacker.Base.{
  if_kept, option_kept, String, Bool, none, some, Option, List, [], ◌∷◌, ok, err,
}
use market_hacker.Float.{Float64}
use market_hacker.Clock.{Time, Location, date_only}
use market_hacker.Engine.{Engine}
use market_hacker.Store.{RuntimeFilters, add_event, Store, update_filters}
use market_hacker.Session.Feeds.{Feeds}
use market_hacker.Session.{run_historic_for_date}
use market_hacker.Session.Holds.Edits.{update_filters_kept}
use market_hacker.Server.{
  historic_run, failure_event, FiltersRequest, get, post, other, handle_filters, apply_patch,
  filters_answer,
}

pub data Served (F : Type 0) : Type 0 where
  -- what the run is fed with, whether it is cancelled, the time of a failure, and the day
  historic_day : Feeds F → Bool → Time → Time → Served F
  filters_request : FiltersRequest F → Served F

module _ {F : Type 0} ⦃d : Float64 F⦄ (e : Engine F) (loc : Location) where
  abbrev pub serve : Served F → Store F → Store F
  serve (historic_day feeds cancelled now day) s = historic_run e loc feeds cancelled now day s
  serve (filters_request r) s = (handle_filters r s).0

  abbrev pub serve_all : List (Served F) → Store F → Store F
  serve_all [] s = s
  serve_all (r ∷ rs) s = serve_all rs (serve r s)

  historic_run_kept :
      (P : Store F → Type 0) (feeds : Feeds F) (cancelled : Bool) (now day : Time) (s : Store F)
      → P (run_historic_for_date e feeds (date_only loc day) s).0
      → ((m : String) (s1 : Store F) → P s1 → P (add_event (failure_event loc now m) s1))
      → P (historic_run e loc feeds cancelled now day s)
  unfolding historic_run
  historic_run_kept P feeds cancelled now day s h add =
      option_kept P (run_historic_for_date e feeds (date_only loc day) s).1 _ _ h
        (λ m. if_kept P cancelled _ _ h (add m _ h))

  handle_filters_kept :
      (P : Store F → Type 0) (r : FiltersRequest F) (s : Store F)
      → ((f : RuntimeFilters F) → P (record s { filters = f }))
      → P s
      → P (handle_filters r s).0
  unfolding handle_filters
  handle_filters_kept P get s blind h = h
  handle_filters_kept P (post (err m)) s blind h = h
  handle_filters_kept P (post (ok p)) s blind h =
      let q = update_filters (λ f. ok (apply_patch p f)) s in
      go q (update_filters_kept P (λ f. ok (apply_patch p f)) s (λ f made valid. blind f) h)
    where
      go : (q : Store F × RuntimeFilters F × Option String) → P q.0 → P (filters_answer q).0
      go (s1, f, none) k = k
      go (s1, f, some m) k = k
  handle_filters_kept P other s blind h = h

  -- What a historic run, the notice of a failure and a change of the filters keep, the server keeps.
  pub serve_all_kept :
      (P : Store F → Type 0)
      → ((feeds : Feeds F) (day : Time) (s : Store F)
          → P s
          → P (run_historic_for_date e feeds day s).0)
      → ((now : Time) (m : String) (s : Store F) → P s → P (add_event (failure_event loc now m) s))
      → ((f : RuntimeFilters F) (s : Store F) → P s → P (record s { filters = f }))
      → (rs : List (Served F)) (s : Store F) → P s
      → P (serve_all rs s)
  serve_all_kept P runs fails blind [] s h = h
  serve_all_kept P runs fails blind (historic_day feeds cancelled now day ∷ rs) s h =
      serve_all_kept P runs fails blind rs _
        (historic_run_kept P feeds cancelled now day s (runs feeds _ s h) (fails now))
  serve_all_kept P runs fails blind (filters_request r ∷ rs) s h =
      serve_all_kept P runs fails blind rs _ (handle_filters_kept P r s (λ f. blind f s h) h)
