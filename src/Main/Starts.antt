-- ===== src/Main/Starts.antt =====
-- What holds of every session of a program that has started.
use market_hacker.Base.{
  ◌≡◌, refl, ℕ, zero, suc, String, true, false, none, some, List, [], ◌∷◌, ℤ, pos, negsuc, ◌≤ℤ◌,
  Result, ok, err, arith,
}
use market_hacker.Float.{Float64, IsIeee}
use market_hacker.Config
use market_hacker.Config.Checks.{load-IsLoaded}
use market_hacker.Engine.{say}
use market_hacker.Store.{Store, set_mode}
use market_hacker.Session.Feeds.{Feeds}
use market_hacker.Session.{run}
use market_hacker.Session.Silent.{Silent, say_mute, add_event-Silent, run_historic-Silent}
use market_hacker.Session.Bounded.{Bounded, add_event-Bounded, session-Bounded}
use market_hacker.Server.{queue_historic_run, failure_event}
use market_hacker.Main.Served.{Served, serve_all, serve_all_kept}
use market_hacker.Main.{Env, Started, launch, check_env, start}

positive_limit : (m : ℤ) → pos 1 ≤ℤ m → (limit : ℕ) × (m ≡ pos (suc limit))
positive_limit (pos zero) h = absurd (ground arith)
positive_limit (pos (suc limit)) h = (limit, refl)
positive_limit (negsuc n) h = absurd (ground arith)

module _ {F : Type 0} ⦃d : Float64 F⦄ where
  check_env-loaded :
      (c : Result (Config.Config F)) (wl : Result (List String)) (key : String)
      (q : Config.Config F × List String)
      → check_env c wl key ≡ ok q
      → c ≡ ok q.0
  unfolding check_env
  check_env-loaded (err m) wl key q h = ground arith
  check_env-loaded (ok cfg) (err m) key q h = ground arith
  check_env-loaded (ok cfg) (ok []) key q h = ground arith
  check_env-loaded (ok cfg) (ok (w ∷ wl)) key q h = ground arith

  launched-parts :
      (env : Env F) (r : Result (Config.Config F × List String)) (p : Started F)
      → (elim r [ err m ↦ err m | ok (cfg, wl) ↦ ok (launch env cfg wl) ]) ≡ ok p
      → (q : Config.Config F × List String) × ((r ≡ ok q) × (launch env q.0 q.1 ≡ p))
  launched-parts env (err m) p h = absurd (ground arith)
  launched-parts env (ok (cfg, wl)) p h = ((cfg, wl), (refl, ground arith))

  -- A program that starts has loaded its configuration and is set up with it.
  start-parts :
      (env : Env F) (p : Started F)
      → start env ≡ ok p
      → (cfg : Config.Config F) × ((wl : List String) × ((Config.load env.config_file ≡ ok cfg)
            × (launch env cfg wl ≡ p)))
  unfolding start
  start-parts env p h =
      let (q, (checked, same)) = launched-parts env _ p h in
      (q.0, (q.1, (check_env-loaded _ env.watchlist env.massive_key q checked, same)))

  -- A program that is started for historic runs does not run the live engine, has today's run in its
  -- queue, and its engine says no text, whatever the store: there is no audio, and no audio id for the
  -- event that is emitted with it. Whatever historic runs and requests about the filters its server
  -- serves one after another, of whatever days, upon whatever answers and however the runs end, no audio
  -- is stored at the end and no event in the list has an audio id.
  pub started_historic-Silent :
      (env : Env F) (p : Started F) (served : List (Served F)) (text : String) (s : Store F)
      → start env ≡ ok p
      → env.historic_flag ≡ true
      → (p.runs_engine ≡ false)
        × (p.queue ≡ some env.now)
        × (say p.engine text s ≡ (s, ""))
        × Silent (serve_all p.engine p.engine.loc served p.store)
  unfolding launch set_mode Silent queue_historic_run failure_event
  started_historic-Silent env p served text s h old =
      let (cfg, (wl, (_, same))) = start-parts env p h in
      let q = launch env cfg wl in
      let mute : q.engine.tts ≡ none = rw old refl in
      rw (← same) (
        rw old refl,
        rw old refl,
        say_mute q.engine text s mute,
        serve_all_kept q.engine q.engine.loc Silent
            (λ feeds day s1 k. run_historic-Silent q.engine feeds day s1 mute k)
            (λ now m s1 k. add_event-Silent (failure_event q.engine.loc now m) s1 refl k)
            (λ f s1 k. k) served q.store (refl, tt),
      )

  -- Whatever the program is started with, neither its live session nor its server, whatever historic
  -- runs and requests about the filters that serves one after another, panics on the list of events,
  -- also where a run fails and says so, and the list stays within the limit of the configuration.
  pub started-Bounded :
      (ieee : IsIeee F) (env : Env F) (p : Started F) (feeds : Feeds F) (served : List (Served F))
      → start env ≡ ok p
      → (limit : ℕ) × (Bounded limit (run p.engine feeds p.store).0
          × Bounded limit (serve_all p.engine p.engine.loc served p.store))
  unfolding launch set_mode Bounded
  started-Bounded ieee env p feeds served h =
      let (cfg, (wl, (loaded, same))) = start-parts env p h in
      let (limit, eq) =
        positive_limit _ (load-IsLoaded ieee env.config_file cfg loaded).events_pos in
      (
        limit,
        rw (← same) (
            let q = launch env cfg wl in
            let begun : Bounded limit q.store = (eq, (ground arith, rw eq (ground arith))) in
            (
              (session-Bounded q.engine feeds env.now limit q.store begun).0,
              serve_all_kept q.engine q.engine.loc (Bounded limit)
                  (λ feeds' day s1 k. (session-Bounded q.engine feeds' day limit s1 k).1)
                  (λ now m s1 k. add_event-Bounded limit (failure_event q.engine.loc now m) s1 k)
                  (λ f s1 k. k) served q.store begun,
            )),
      )
