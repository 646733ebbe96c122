-- ===== src/Ring/Tests.antt =====
-- Runs of the ring and the tee, and their theorems at concrete inputs.
use wharf_tui.Base.{concat, ◌≡◌, refl, true, false, none, [], ◌∷◌, ◌++◌, arith}
use wharf_tui.Ring.{Ring, write, write_segments, snapshot, IsValid}
use wharf_tui.Ring.Copy.{copy_at}
use wharf_tui.Ring.Write.{newest, snapshot-write}
use wharf_tui.Ring.Tee.{
  Tee, wrote, went_live, chunks, received, mirrored, tee_run, snapshot-tee_run, tee_handover,
}

-- 4 bytes of capacity, holding 8 and 9 round the end.
abbrev wrapped : Ring
wrapped = record { buf = 9 ∷ 0 ∷ 0 ∷ 8 ∷ []; cap = 4; start = 3; len = 2 }

wrapped-IsValid : IsValid wrapped
wrapped-IsValid = omega arith

snapshot-wrapped : snapshot wrapped ≡ 8 ∷ 9 ∷ []
unfolding snapshot copy_at
snapshot-wrapped = refl

write-run : snapshot (write wrapped (1 ∷ 2 ∷ 3 ∷ [])).0 ≡ 9 ∷ 1 ∷ 2 ∷ 3 ∷ []
unfolding snapshot write write_segments copy_at
write-run = refl

snapshot-write_example :
    snapshot (write wrapped (1 ∷ 2 ∷ 3 ∷ [])).0 ≡ newest 4 (snapshot wrapped ++ (1 ∷ 2 ∷ 3 ∷ []))
snapshot-write_example = snapshot-write wrapped (1 ∷ 2 ∷ 3 ∷ []) wrapped-IsValid

abbrev idle : Tee
idle = record { ring = wrapped; live = none }

-- Writer 7 goes live, fails, and the ring goes on.
snapshot-tee_run_example :
    snapshot
      (tee_run idle (went_live 7 true ∷ wrote (1 ∷ []) false ∷ wrote (2 ∷ []) true ∷ [])).0.ring
    ≡ newest 4 (snapshot wrapped ++ concat ((1 ∷ []) ∷ (2 ∷ []) ∷ []))
unfolding chunks
snapshot-tee_run_example =
    snapshot-tee_run (went_live 7 true ∷ wrote (1 ∷ []) false ∷ wrote (2 ∷ []) true ∷ []) idle
      wrapped-IsValid

tee_handover_example :
    received 7
      (tee_run
        (tee_run idle (wrote (1 ∷ []) true ∷ [])).0
        (went_live 7 true ∷ mirrored ((5 ∷ []) ∷ []))).1
    ≡ newest 4 (snapshot wrapped ++ concat (chunks (wrote (1 ∷ []) true ∷ [])))
      ++ concat ((5 ∷ []) ∷ [])
tee_handover_example =
    tee_handover (wrote (1 ∷ []) true ∷ []) idle 7 ((5 ∷ []) ∷ []) wrapped-IsValid
