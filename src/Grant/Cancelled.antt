-- ===== src/Grant/Cancelled.antt =====
-- What may still happen once Close has cancelled the context.
use wharf_tui.Base.{
  ℕ, suc, ◌+◌, ◌≤◌, ◌≡◌, refl, ◌∙◌, Bool, true, inl, inr, some, List, [], ◌∷◌, if◌then◌else◌, arith,
  get_elem?, Bool-cases, Option-cases,
}
use wharf_tui.Base.Text.{Str}
use wharf_tui.Base.Find.{remove_at}
use wharf_tui.Grant.{
  Stage, numbered, admitted, cleared, announced, executing, revoking, leaving, gone, refusing_out,
  refusing_in, Runner, Execution, Grant, admit, check_context, proceed, advance, Event, request,
  goes_on, close_flag, close_cancel, step, run,
}
use wharf_tui.Grant.Runners.{is_cleared, one_if, num_at, num_started, num_at-remove_at}

-- The calls of Exec with a context that was not cancelled.
unfoldable pub num_live : List Execution → ℕ
num_live [] = 0
num_live (x ∷ xs) = let rest = num_live xs in if Execution.cancelled x then rest else suc rest

-- The starts in the audit, with the runners that have passed the check and are to emit theirs.
abbrev bound_to_start : ℕ → Stage × Grant → ℕ
bound_to_start n (stage, g) = num_started (Grant.audit g) + (one_if (is_cleared stage) + n)

abbrev IsStopped : Grant → Grant → Type 0
IsStopped g g' =
    (Grant.cancelled g' ≡ true) × (num_live (Grant.executions g') ≡ num_live (Grant.executions g))

proceed-IsStopped :
    (late : Bool) (id : ℕ) (command : Str) (stage : Stage) (g : Grant) (n : ℕ)
    → Grant.cancelled g ≡ true
    → IsStopped g ((proceed late id command stage g).1)
      × (bound_to_start n (proceed late id command stage g) ≡ bound_to_start n (stage, g))
unfolding proceed admit check_context num_started num_live
proceed-IsStopped late id command numbered g n h = ground arith
proceed-IsStopped late id command admitted g n h = ground arith
proceed-IsStopped late id command revoking g n h = ((h, refl), refl)
proceed-IsStopped late id command (refusing_out why) g n h = ((h, refl), refl)
proceed-IsStopped late id command (refusing_in why) g n h = ((h, refl), refl)
proceed-IsStopped late id command cleared g n h = ((h, refl), omega arith)
proceed-IsStopped late id command announced g n h = ground arith
proceed-IsStopped late id command executing g n h = ((h, refl), refl)
proceed-IsStopped late id command leaving g n h = ((h, refl), refl)
proceed-IsStopped late id command gone g n h = ((h, refl), refl)

abbrev starts : Grant → ℕ
starts g = num_started (Grant.audit g) + num_at is_cleared (Grant.runners g)

advance-IsStopped :
    (late : Bool) (r : Runner) (i : ℕ) (g : Grant)
    → get_elem? (Grant.runners g) i ≡ some r
    → Grant.cancelled g ≡ true
    → IsStopped g (advance late r i g) × (starts (advance late r i g) ≡ starts g)
unfolding advance num_at
advance-IsStopped late r i g e h =
    let rest = num_at is_cleared (remove_at i (Grant.runners g)) in
    let n = num_at-remove_at is_cleared i (Grant.runners g) e in
    let (stopped, same) =
      proceed-IsStopped late (Runner.id r) (Runner.command r) (Runner.stage r) g rest h in
    (stopped, omega (arith, same, n))

step-IsStopped :
    (e : Event) (g : Grant)
    → Grant.cancelled g ≡ true
    → IsStopped g (step e g) × (starts (step e g) ≡ starts g)
unfolding step num_at
step-IsStopped (request command) g h = ((h, refl), omega arith)
step-IsStopped (goes_on late i) g h = elim (Option-cases (get_elem? (Grant.runners g) i)) [
  | inl e ↦ rw (e, step) ((h, refl), refl)
  | inr (r, e) ↦ rw (e, step) (advance-IsStopped late r i g e h)
]
step-IsStopped close_flag g h = ((h, refl), refl)
step-IsStopped close_cancel g h = elim (Bool-cases (Grant.closed g)) [
  | inl e ↦ simp (step, e) ((refl, refl), refl)
  | inr e ↦ simp (step, e) ((h, refl), refl)
]

run-IsStopped :
    (es : List Event) (g : Grant)
    → Grant.cancelled g ≡ true
    → IsStopped g (run es g) × (starts (run es g) ≡ starts g)
unfolding run
run-IsStopped [] g h = ((h, refl), refl)
run-IsStopped (e ∷ es) g h =
    let ((c, live), same) = step-IsStopped e g h in
    let ((c', live'), same') = run-IsStopped es (step e g) c in ((c', live' ∙ live), same' ∙ same)

-- Once Close has cancelled the context, no command is handed to Exec with a context that is not
-- cancelled, and the audit gets no more starts than there were runners that had passed the check of
-- the context by then, whatever was let in before and whatever is asked later.
pub run_cancelled :
    (es : List Event) (g : Grant)
    → Grant.cancelled g ≡ true
    → (num_live (Grant.executions (run es g)) ≡ num_live (Grant.executions g))
      × (num_started (Grant.audit (run es g))
          ≤ num_started (Grant.audit g) + num_at is_cleared (Grant.runners g))
run_cancelled es g h = let ((c, live), same) = run-IsStopped es g h in (live, omega (arith, same))
