-- ===== src/Grant/Tests.antt =====
-- A grant of one command at a time, and the theorems applied to it.
use wharf_tui.Base.{◌≤◌, ◌≡◌, refl, arith, List, [], ◌∷◌, true, false}
use wharf_tui.Base.Text.{codes}
use wharf_tui.Base.Find.{remove_at}
use wharf_tui.Grant.{
  Grant, too_many, started, ended, refused, cleared, new_grant, admit, check_context, proceed,
  advance, Event, request, goes_on, close_flag, close_cancel, step, run,
}
use wharf_tui.Grant.Runners.{num_at, num_started}
use wharf_tui.Grant.Counted.{IsCounted, run-IsCounted}
use wharf_tui.Grant.Cancelled.{num_live, run_cancelled}

-- The newest runner goes on.
abbrev newest : Event
newest = goes_on false 0

-- The second command is refused while the first runs, and Close comes when the third has passed the
-- check of the context: its start is emitted, and Exec gets the cancelled context.
abbrev history : List Event
history =
    request (codes "a")
    ∷ newest
    ∷ newest
    ∷ newest
    ∷ newest
    ∷ request (codes "b")
    ∷ newest
    ∷ newest
    ∷ goes_on false 1
    ∷ newest
    ∷ request (codes "c")
    ∷ newest
    ∷ newest
    ∷ close_flag
    ∷ close_cancel
    ∷ newest
    ∷ newest
    ∷ []

history-run :
    (Grant.audit (run history (new_grant 1))
      ≡ started 3 (codes "c")
        ∷ ended 1 (codes "a")
        ∷ refused 2 (codes "b") too_many
        ∷ started 1 (codes "a")
        ∷ [])
    × (Grant.executions (run history (new_grant 1))
        ≡ record { id = 3; cancelled = true } ∷ record { id = 1; cancelled = false } ∷ [])
unfolding run step advance proceed admit check_context remove_at new_grant
history-run = (refl, refl)

run-IsCounted_example : IsCounted (run history (new_grant 1))
unfolding new_grant num_started num_at
run-IsCounted_example =
    run-IsCounted history (new_grant 1)
      (record { flying = refl; limited = omega arith; counted = refl })

abbrev caught : Grant
caught = record {
  max_in_flight = 1;
  closed = true;
  cancelled = true;
  count = 1;
  in_flight = 1;
  seq = 1;
  audit = [];
  executions = [];
  runners = record { id = 1; command = codes "c"; stage = cleared } ∷ [];
}

run_cancelled_example :
    (num_live (Grant.executions (run (newest ∷ newest ∷ []) caught)) ≡ 0)
    × (num_started (Grant.audit (run (newest ∷ newest ∷ []) caught)) ≤ 1)
unfolding num_live num_started num_at
run_cancelled_example = run_cancelled (newest ∷ newest ∷ []) caught refl
