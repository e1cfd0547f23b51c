-- ===== src/Server/OneRun.antt =====
-- `historicRunLoop` keeps its promise: "One run at a time".
use market_hacker.Base.{
  ◌≡◌, refl, true, false, none, some, List, [], ◌∷◌, All, arith, ◌≤◌, ℕ, suc, or_else,
  if◌then◌else◌,
}
use market_hacker.Clock.{Time}
use market_hacker.Store.{historic}
use market_hacker.Server.Runs.{
  Run, RunLoop, Ends, this, later, Step, request, ends, ignore, start, replace, resume, stop, Reach,
  here, next, start_run, cancel_last, last_done,
}

abbrev IsDone : Run → Type 0
IsDone r = r.done ≡ true

-- Every run but the newest has ended.
abbrev pub OneAlive : List Run → Type 0
OneAlive [] = Unit
OneAlive (r ∷ rs) = All IsDone rs

pub record Inv (l : RunLoop) : Type 0 where
  pub one_alive : OneAlive l.runs
  pub not_running : l.running ≡ false → l.runs ≡ []

All-Ends : {rs rs' : List Run} → Ends rs rs' → All IsDone rs → All IsDone rs'
All-Ends this h = (refl, h.1)
All-Ends (later e) h = (h.0, All-Ends e h.1)

OneAlive-Ends : {rs rs' : List Run} → Ends rs rs' → OneAlive rs → OneAlive rs'
OneAlive-Ends this h = h
OneAlive-Ends (later e) h = All-Ends e h

OneAlive-cancel_last : (rs : List Run) → OneAlive rs → OneAlive (cancel_last rs)
OneAlive-cancel_last [] h = h
OneAlive-cancel_last (r ∷ rs) h = h

OneAlive-start_run :
    (day : Time) (rs : List Run) → OneAlive rs → last_done rs ≡ true → OneAlive (start_run day rs)
OneAlive-start_run day [] h e = tt
OneAlive-start_run day (r ∷ rs) h e = (e, h)

cancel_last-nil : (rs : List Run) → rs ≡ [] → cancel_last rs ≡ []
cancel_last-nil [] h = refl
cancel_last-nil (r ∷ rs) h = absurd (ground arith)

Ends-nil : {rs rs' : List Run} → Ends rs rs' → rs ≡ [] → rs' ≡ []
Ends-nil this h = absurd (ground arith)
Ends-nil (later e) h = absurd (ground arith)

-- Besides, the loop waits only for a run that it has started.
pub record Waits (l : RunLoop) : Type 0 where
  pub inv : Inv l
  pub has_run : (day : Time) → l.waiting ≡ some day → l.running ≡ true

Step-Waits : {l m : RunLoop} → Step l m → Waits l → Waits m
Step-Waits (request l day) h = record {
  inv = record { one_alive = h.inv.one_alive; not_running = h.inv.not_running };
  has_run = h.has_run;
}
Step-Waits (ends l e) h = record {
  inv = record {
    one_alive = OneAlive-Ends e h.inv.one_alive;
    not_running = λ r. Ends-nil e (h.inv.not_running r);
  };
  has_run = h.has_run;
}
Step-Waits (ignore l day _ _ _ _) h = record {
  inv = record { one_alive = h.inv.one_alive; not_running = h.inv.not_running };
  has_run = h.has_run;
}
Step-Waits (start l day _ idle _ _ fresh) h = record {
  inv = record {
    one_alive = rw (h.inv.not_running fresh) tt;
    not_running = λ r. absurd (ground arith);
  };
  has_run = λ d r. refl;
}
Step-Waits (replace l day _ idle _ _ running) h = record {
  inv = record {
    one_alive = OneAlive-cancel_last l.runs h.inv.one_alive;
    not_running = λ r. cancel_last-nil l.runs (h.inv.not_running r);
  };
  has_run = λ d r. running;
}
Step-Waits (resume l day _ waits ended) h = record {
  inv = record {
    one_alive = OneAlive-start_run (or_else day l.queue) l.runs h.inv.one_alive ended;
    not_running = λ r. absurd (ground (arith, h.has_run day waits));
  };
  has_run = λ d r. absurd (ground arith);
}
Step-Waits (stop l idle) h = record {
  inv = record {
    one_alive = OneAlive-cancel_last l.runs h.inv.one_alive;
    not_running = λ r. cancel_last-nil l.runs (h.inv.not_running r);
  };
  has_run = h.has_run;
}

Reach-Waits : {l m : RunLoop} → Waits l → Reach l m → Waits m
Reach-Waits h here = h
Reach-Waits h (next r s) = Step-Waits s (Reach-Waits h r)

abbrev pub initial : RunLoop
initial = record {
  mode = historic;
  queue = none;
  running = false;
  waiting = none;
  stopped = false;
  runs = [];
}

initial-Waits : Waits initial
initial-Waits = record {
  inv = record { one_alive = tt; not_running = λ _. refl };
  has_run = λ d r. absurd (ground arith);
}

pub alive : List Run → ℕ
alive [] = 0
alive (r ∷ rs) = if r.done then alive rs else suc (alive rs)

alive-done : (rs : List Run) → All IsDone rs → alive rs ≡ 0
unfolding alive
alive-done [] h = refl
alive-done (r ∷ rs) h = ground (arith, alive-done rs h.1)

alive-OneAlive : (rs : List Run) → OneAlive rs → alive rs ≤ 1
unfolding alive
alive-OneAlive [] h = omega arith
alive-OneAlive (r ∷ rs) h = ground (arith, alive-done rs h)

-- However requests, ends of runs and a shutdown interleave with the loop, there is never more than
-- one historic run that has not ended.
pub one_run_at_a_time : {l : RunLoop} → Reach initial l → alive l.runs ≤ 1
one_run_at_a_time r = alive-OneAlive _ (Reach-Waits initial-Waits r).inv.one_alive
