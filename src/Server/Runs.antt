-- ===== src/Server/Runs.antt =====
-- `QueueHistoricRun`, `handleHistoricRun` and `historicRunLoop` of internal/server/api.go.
-- The channel holds one day at most. `runs` lists the goroutines that the loop has started, the newest
-- first; a goroutine ends by itself, or some time after it was cancelled.
use market_hacker.Base.{
  String, ◌≡◌, Bool, true, false, Option, none, some, List, [], ◌∷◌, or_else, str_eq, if◌then◌else◌,
}
use market_hacker.Clock.{Time}
use market_hacker.Store.{Mode, realtime, historic}

pub record Run : Type 0 where
  pub day : Time
  pub cancelled : Bool
  pub done : Bool

pub record RunLoop : Type 0 where
  pub mode : Mode
  -- histReqC
  pub queue : Option Time
  pub running : Bool
  -- the day in hand while the loop waits at `<-doneCh`
  pub waiting : Option Time
  pub stopped : Bool
  pub runs : List Run

-- A full channel is emptied first: the latest request wins.
unfoldable pub queue_historic_run : Time → Option Time → Option Time
queue_historic_run day none = some day
queue_historic_run day (some _) = some day

pub data RunAnswer : Type 0 where
  queued wrong_method not_historic missing_date invalid_date : RunAnswer

-- `parse` is time.ParseInLocation; the date is trimmed before.
unfoldable pub handle_historic_run :
    (String → Option Time) → Bool → String → RunLoop → RunLoop × RunAnswer
unfolding queue_historic_run
handle_historic_run parse is_post date l =
    if is_post
    then elim l.mode [
      | realtime ↦ (l, not_historic)
      | historic ↦ if str_eq date "" then (l, missing_date) else elim (parse date) [
        | none ↦ (l, invalid_date)
        | some day ↦ (record l { queue = queue_historic_run day l.queue }, queued)
      ]
    ]
    else (l, wrong_method)

abbrev pub start_run : Time → List Run → List Run
start_run day rs = record { day = day; cancelled = false; done = false } ∷ rs

-- `cancel()` acts on the run that was started last.
abbrev pub cancel_last : List Run → List Run
cancel_last [] = []
cancel_last (r ∷ rs) = record r { cancelled = true } ∷ rs

abbrev pub last_done : List Run → Bool
last_done [] = true
last_done (r ∷ rs) = r.done

-- Some goroutine of the list ends.
pub data Ends : List Run → List Run → Type 0 where
  this : {r : Run} {rs : List Run} → Ends (r ∷ rs) (record r { done = true } ∷ rs)
  later : {r : Run} {rs rs' : List Run} → Ends rs rs' → Ends (r ∷ rs) (r ∷ rs')

-- One step of the server: a request comes in, a goroutine ends, or the loop goes on.
pub data Step : RunLoop → RunLoop → Type 0 where
  request :
      (l : RunLoop) (day : Time) → Step l (record l { queue = queue_historic_run day l.queue })
  ends : (l : RunLoop) {rs : List Run} → Ends l.runs rs → Step l (record l { runs = rs })
  ignore :
      (l : RunLoop) (day : Time)
      → l.stopped ≡ false
      → l.waiting ≡ none
      → l.queue ≡ some day
      → l.mode ≡ realtime
      → Step l (record l { queue = none })
  start :
      (l : RunLoop) (day : Time)
      → l.stopped ≡ false
      → l.waiting ≡ none
      → l.queue ≡ some day
      → l.mode ≡ historic
      → l.running ≡ false
      → Step l (record l { queue = none; running = true; runs = start_run day l.runs })
  -- cancel the current run and wait for it
  replace :
      (l : RunLoop) (day : Time)
      → l.stopped ≡ false
      → l.waiting ≡ none
      → l.queue ≡ some day
      → l.mode ≡ historic
      → l.running ≡ true
      → Step l (record l { queue = none; waiting = some day; runs = cancel_last l.runs })
  -- drain the channel, keep the most recent day, and start it
  resume :
      (l : RunLoop) (day : Time)
      → l.stopped ≡ false
      → l.waiting ≡ some day
      → last_done l.runs ≡ true
      → Step l
          (record l { queue = none; waiting = none; runs = start_run (or_else day l.queue) l.runs })
  -- the context is done: cancel the current run; the loop returns when it has ended
  stop :
      (l : RunLoop)
      → l.waiting ≡ none
      → Step l (record l { stopped = true; runs = cancel_last l.runs })

pub data Reach (l : RunLoop) : RunLoop → Type 0 where
  here : Reach l l
  next : {m n : RunLoop} → Reach l m → Step m n → Reach l n
