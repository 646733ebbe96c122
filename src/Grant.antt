-- ===== src/Grant.antt =====
-- internal/remoteaccess/grant.go: what a grant lets run. A request is a runner, a goroutine inside
-- `run`, with the place at which it stands; the places are the points between which another goroutine
-- may come: the locks, the check of the context, the audit events, the start and the return of Exec.
-- Close sets its flag under the lock, and cancels the context later. A history is any sequence of such
-- steps. Sockets, the handshake and the streams of a command are left out.
pub mod Runners
pub mod Counted
pub mod Cancelled
mod Tests
use wharf_tui.Base.{
  ℕ, ◌+◌, ◌-◌, Bool, true, false, Option, none, some, List, [], ◌∷◌, ◌++◌, if◌then◌else◌, leb,
  get_elem?,
}
use wharf_tui.Base.Text.{Str}
use wharf_tui.Base.Find.{remove_at}

pub data Reason : Type 0 where
  revoked expired too_many : Reason

-- The audit events: a command that starts, one that has ended, one that was refused.
pub data Audit : Type 0 where
  started ended : ℕ → Str → Audit
  refused : ℕ → Str → Reason → Audit

-- Where a runner stands: it has its audit ID; it was let in; it has seen a live context; it has
-- emitted its start; Exec runs; it has seen a cancelled context; it is to emit a refusal, with or
-- without a place among those in flight; it is to give that place back; it is gone.
pub data Stage : Type 0 where
  numbered admitted cleared announced executing revoking leaving gone : Stage
  refusing_out refusing_in : Reason → Stage

pub record Runner : Type 0 where
  pub id : ℕ
  pub command : Str
  pub stage : Stage

-- A call of Exec, with whether its context was cancelled by then.
pub record Execution : Type 0 where
  pub id : ℕ
  pub cancelled : Bool

-- Grant, with the runners, the audit events and the calls of Exec, newest first.
pub record Grant : Type 0 where
  pub max_in_flight : ℕ
  pub closed : Bool
  pub cancelled : Bool
  pub count : ℕ
  pub in_flight : ℕ
  pub seq : ℕ
  pub audit : List Audit
  pub executions : List Execution
  pub runners : List Runner

-- newGrant; a limit that is not positive is the default, 4.
unfoldable pub new_grant : ℕ → Grant
new_grant max = record {
  max_in_flight = if leb max 0 then 4 else max;
  closed = false;
  cancelled = false;
  count = 0;
  in_flight = 0;
  seq = 0;
  audit = [];
  executions = [];
  runners = [];
}

abbrev pub emit : Audit → Grant → Grant
emit e g = record g { audit = e ∷ Grant.audit g }

-- The switch of run, under its first lock. `late` is Expired.
unfoldable pub admit : Bool → Grant → Stage × Grant
admit late g =
    if Grant.closed g
    then (refusing_out revoked, g)
    else if late
    then (refusing_out expired, g)
    else if leb (Grant.max_in_flight g) (Grant.in_flight g)
    then (refusing_out too_many, g)
    else (admitted, record g { in_flight = Grant.in_flight g + 1; count = Grant.count g + 1 })

-- The check of the context.
unfoldable pub check_context : Grant → Stage × Grant
check_context g = if Grant.cancelled g then (revoking, g) else (cleared, g)

-- run, from where a runner stands to its next place.
unfoldable pub proceed : Bool → ℕ → Str → Stage → Grant → Stage × Grant
unfolding admit check_context
proceed late id command numbered g = admit late g
proceed late id command admitted g = check_context g
proceed late id command revoking g = (refusing_in revoked, record g { count = Grant.count g - 1 })
proceed late id command (refusing_out why) g = (gone, emit (refused id command why) g)
proceed late id command (refusing_in why) g = (leaving, emit (refused id command why) g)
proceed late id command cleared g = (announced, emit (started id command) g)
proceed late id command announced g = (
  executing,
  record g { executions = record { id = id; cancelled = Grant.cancelled g } ∷ Grant.executions g },
)
proceed late id command executing g = (leaving, emit (ended id command) g)
proceed late id command leaving g = (gone, record g { in_flight = Grant.in_flight g - 1 })
proceed late id command gone g = (gone, g)

-- The runner at a place takes its next step.
unfoldable pub advance : Bool → Runner → ℕ → Grant → Grant
advance late r i g =
    let (stage, g') = proceed late (Runner.id r) (Runner.command r) (Runner.stage r) g in
    record g' { runners = record r { stage = stage } ∷ remove_at i (Grant.runners g) }

-- A request comes, a runner goes on, Close takes its lock, Close cancels the context.
pub data Event : Type 0 where
  request : Str → Event
  goes_on : Bool → ℕ → Event
  close_flag close_cancel : Event

unfoldable pub step : Event → Grant → Grant
unfolding advance
step (request command) g =
    let id = Grant.seq g + 1 in
    record g {
      seq = id;
      runners = record { id = id; command = command; stage = numbered } ∷ Grant.runners g;
    }
step (goes_on late i) g = elim (get_elem? (Grant.runners g) i) [
  | none ↦ g
  | some r ↦ advance late r i g
]
step close_flag g = record g { closed = true }
step close_cancel g = if Grant.closed g then record g { cancelled = true } else g

unfoldable pub run : List Event → Grant → Grant
unfolding step
run [] g = g
run (e ∷ es) g = run es (step e g)

-- Count
unfoldable pub commands_run : Grant → ℕ
commands_run g = Grant.count g
