-- ===== src/Grant/Counted.antt =====
-- What a grant's counters are worth, whatever the goroutines do.
use wharf_tui.Base.{
  ℕ, ◌+◌, ◌≤◌, ◌≡◌, Bool, inl, inr, some, List, [], ◌∷◌, arith, get_elem?, Bool-cases, Option-cases,
}
use wharf_tui.Base.Text.{Str}
use wharf_tui.Base.Find.{remove_at}
use wharf_tui.Grant.{
  Stage, numbered, admitted, cleared, announced, executing, revoking, leaving, gone, refusing_out,
  refusing_in, Runner, Grant, admit, check_context, proceed, advance, Event, request, goes_on,
  close_flag, close_cancel, step, run,
}
use wharf_tui.Grant.Runners.{is_flying, is_undecided, one_if, num_at, num_started, num_at-remove_at}

-- The counters agree with the runners and the audit, and the limit is kept.
pub record IsCounted (g : Grant) : Type 0 where
  pub flying : Grant.in_flight g ≡ num_at is_flying (Grant.runners g)
  pub limited : Grant.in_flight g ≤ Grant.max_in_flight g
  pub counted : Grant.count g ≡ num_started (Grant.audit g) + num_at is_undecided (Grant.runners g)

-- The same of one runner at a place, beside `f` others in flight and `n` others undecided.
abbrev IsBalanced : ℕ → ℕ → Stage × Grant → Type 0
IsBalanced f n (stage, g) =
    (Grant.in_flight g ≡ one_if (is_flying stage) + f)
    × (Grant.in_flight g ≤ Grant.max_in_flight g)
    × (Grant.count g ≡ num_started (Grant.audit g) + (one_if (is_undecided stage) + n))

proceed-IsBalanced :
    (late : Bool) (id : ℕ) (command : Str) (stage : Stage) (g : Grant) (f n : ℕ)
    → IsBalanced f n (stage, g)
    → IsBalanced f n (proceed late id command stage g)
unfolding proceed admit check_context num_started
proceed-IsBalanced late id command numbered g f n b = ground arith
proceed-IsBalanced late id command admitted g f n b = ground arith
proceed-IsBalanced late id command revoking g f n b = ground arith
proceed-IsBalanced late id command (refusing_out why) g f n b = b
proceed-IsBalanced late id command (refusing_in why) g f n b = b
proceed-IsBalanced late id command cleared g f n b = ground arith
proceed-IsBalanced late id command announced g f n b = b
proceed-IsBalanced late id command executing g f n b = b
proceed-IsBalanced late id command leaving g f n b = ground arith
proceed-IsBalanced late id command gone g f n b = b

advance-IsCounted :
    (late : Bool) (r : Runner) (i : ℕ) (g : Grant)
    → get_elem? (Grant.runners g) i ≡ some r
    → IsCounted g
    → IsCounted (advance late r i g)
unfolding advance num_at
advance-IsCounted late r i g e v =
    let rest = remove_at i (Grant.runners g) in
    let f = num_at-remove_at is_flying i (Grant.runners g) e in
    let n = num_at-remove_at is_undecided i (Grant.runners g) e in
    let b =
      proceed-IsBalanced late (Runner.id r) (Runner.command r) (Runner.stage r) g
        (num_at is_flying rest) (num_at is_undecided rest)
        (omega (arith, v.flying, f), v.limited, omega (arith, v.counted, n)) in
    record { flying = b.0; limited = b.1; counted = b.2 }

step-IsCounted : (e : Event) (g : Grant) → IsCounted g → IsCounted (step e g)
unfolding step num_at
step-IsCounted (request command) g v = record {
  flying = omega (arith, v.flying);
  limited = v.limited;
  counted = omega (arith, v.counted);
}
step-IsCounted (goes_on late i) g v = elim (Option-cases (get_elem? (Grant.runners g) i)) [
  | inl e ↦ rw (e, step) v
  | inr (r, e) ↦ rw (e, step) (advance-IsCounted late r i g e v)
]
step-IsCounted close_flag g v = record {
  flying = v.flying;
  limited = v.limited;
  counted = v.counted;
}
step-IsCounted close_cancel g v = elim (Bool-cases (Grant.closed g)) [
  | inl e ↦ rw (e, step) (record { flying = v.flying; limited = v.limited; counted = v.counted })
  | inr e ↦ rw (e, step) (record { flying = v.flying; limited = v.limited; counted = v.counted })
]

-- In every history from a grant of which this holds, as of a new one, the number of commands in flight
-- is that of the runners that were let in and have not given their place back, it stays within the
-- limit, and Count is the number of commands whose start is in the audit, with those that were let in
-- and have neither emitted their start nor been taken back.
pub run-IsCounted : (es : List Event) (g : Grant) → IsCounted g → IsCounted (run es g)
unfolding run
run-IsCounted [] g v = v
run-IsCounted (e ∷ es) g v = run-IsCounted es (step e g) (step-IsCounted e g v)
