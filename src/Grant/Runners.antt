-- ===== src/Grant/Runners.antt =====
-- How many runners of a grant stand at certain places, and the commands that the audit has as started.
use wharf_tui.Base.{
  ℕ, zero, suc, ◌+◌, ◌≡◌, ap, Bool, true, false, some, List, [], ◌∷◌, arith, get_elem?,
}
use wharf_tui.Base.Find.{remove_at}
use wharf_tui.Grant.{
  Audit, started, ended, refused, Stage, numbered, admitted, cleared, announced, executing,
  revoking, leaving, gone, refusing_out, refusing_in, Runner,
}

-- The places between the lock that lets a runner in and the one that gives its place back.
abbrev pub is_flying : Stage → Bool
is_flying numbered = false
is_flying admitted = true
is_flying cleared = true
is_flying announced = true
is_flying executing = true
is_flying revoking = true
is_flying leaving = true
is_flying gone = false
is_flying (refusing_out why) = false
is_flying (refusing_in why) = true

-- The places at which a runner is counted as a command that was run, and has not emitted its start.
abbrev pub is_undecided : Stage → Bool
is_undecided numbered = false
is_undecided admitted = true
is_undecided cleared = true
is_undecided announced = false
is_undecided executing = false
is_undecided revoking = true
is_undecided leaving = false
is_undecided gone = false
is_undecided (refusing_out why) = false
is_undecided (refusing_in why) = false

abbrev pub is_cleared : Stage → Bool
is_cleared numbered = false
is_cleared admitted = false
is_cleared cleared = true
is_cleared announced = false
is_cleared executing = false
is_cleared revoking = false
is_cleared leaving = false
is_cleared gone = false
is_cleared (refusing_out why) = false
is_cleared (refusing_in why) = false

abbrev pub one_if : Bool → ℕ
one_if true = 1
one_if false = 0

unfoldable pub num_at : (Stage → Bool) → List Runner → ℕ
num_at p [] = 0
num_at p (r ∷ rs) = one_if (p (Runner.stage r)) + num_at p rs

unfoldable pub num_started : List Audit → ℕ
num_started [] = 0
num_started (started id c ∷ es) = suc (num_started es)
num_started (ended id c ∷ es) = num_started es
num_started (refused id c r ∷ es) = num_started es

pub num_at-remove_at :
    (p : Stage → Bool) (i : ℕ) (rs : List Runner) {r : Runner}
    → get_elem? rs i ≡ some r
    → num_at p rs ≡ one_if (p (Runner.stage r)) + num_at p (remove_at i rs)
unfolding num_at remove_at
num_at-remove_at p i [] h = absurd (ground arith)
num_at-remove_at p zero (x ∷ rs) {r} h =
    let same : x ≡ r = cc in ap (λ y. one_if (p (Runner.stage y)) + num_at p rs) same
num_at-remove_at p (suc i) (x ∷ rs) h = let rest = num_at-remove_at p i rs h in omega (arith, rest)
