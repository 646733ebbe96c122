-- ===== src/Ring/Tee.antt =====
-- The tee of internal/sshx/ring.go. A writer is known by a number (`w` is compared by identity),
-- and whether a call of its `Write`, or of `replay`, succeeds is part of the event. Each method
-- holds the lock from start to end, so a session is a sequence of events.
use wharf_tui.Base.{
  concat, ℕ, ◌≡◌, refl, Bool, true, false, Option, none, some, List, [], ◌∷◌, ◌++◌, ◌==◌, ==_iff,
  if◌then◌else◌,
}
use wharf_tui.Ring.{Ring, write, snapshot, IsValid}
use wharf_tui.Ring.Write.{newest}
use wharf_tui.Ring.Stream.{write_all, snapshot-write_all}

pub record Tee : Type 0 where
  pub ring : Ring
  pub live : Option ℕ

-- Bytes that reached a writer.
abbrev pub Delivery : Type 0
Delivery = ℕ × List ℕ

-- What `Write` mirrors, and the live writer that it leaves: one that fails is dropped.
unfoldable pub mirror : Option ℕ → Bool → List ℕ → Option ℕ × List Delivery
mirror none accepted p = (none, [])
mirror (some w) true p = (some w, (w, p) ∷ [])
mirror (some w) false p = (none, [])

-- tee.Write
unfoldable pub tee_write : Tee → List ℕ → Bool → Tee × List Delivery
unfolding mirror
tee_write t p accepted =
    let (live', out) = mirror t.live accepted p in
    (record t { ring = (write t.ring p).0; live = live' }, out)

-- tee.goLive: a failed replay installs nothing.
unfoldable pub go_live : Tee → ℕ → Bool → Tee × List Delivery
go_live t w true = (record t { live = some w }, (w, snapshot t.ring) ∷ [])
go_live t w false = (t, [])

unfoldable pub clear_if : ℕ → Option ℕ → Option ℕ
clear_if w none = none
clear_if w (some v) = if v == w then none else some v

-- tee.unsetLive
unfoldable pub unset_live : Tee → ℕ → Tee
unfolding clear_if
unset_live t w = record t { live = clear_if w t.live }

pub data Event : Type 0 where
  wrote : List ℕ → Bool → Event
  went_live : ℕ → Bool → Event
  unset : ℕ → Event

unfoldable pub tee_step : Tee → Event → Tee × List Delivery
unfolding tee_write go_live unset_live
tee_step t (wrote p accepted) = tee_write t p accepted
tee_step t (went_live w replayed) = go_live t w replayed
tee_step t (unset w) = (unset_live t w, [])

unfoldable pub tee_run : Tee → List Event → Tee × List Delivery
unfolding tee_step
tee_run t [] = (t, [])
tee_run t (e ∷ es) =
    let (t', out) = tee_step t e in let (t'', rest) = tee_run t' es in (t'', out ++ rest)

-- The chunks that the events wrote.
unfoldable pub chunks : List Event → List (List ℕ)
chunks [] = []
chunks (wrote p _ ∷ es) = p ∷ chunks es
chunks (_ ∷ es) = chunks es

-- The bytes that reached one writer.
unfoldable pub received : ℕ → List Delivery → List ℕ
received w [] = []
received w ((v, p) ∷ ds) = if v == w then p ++ received w ds else received w ds

-- Writes only, every one accepted.
abbrev pub mirrored : List (List ℕ) → List Event
mirrored [] = []
mirrored (p ∷ ps) = wrote p true ∷ mirrored ps

-- Whatever becomes of the writers, the ring takes every chunk.
ring-tee_run : (es : List Event) (t : Tee) → (tee_run t es).0.ring ≡ write_all t.ring (chunks es)
unfolding tee_run chunks write_all
ring-tee_run [] t = refl
ring-tee_run (wrote p a ∷ es) t = ring-tee_run es (tee_write t p a).0
ring-tee_run (went_live w true ∷ es) t = ring-tee_run es (go_live t w true).0
ring-tee_run (went_live w false ∷ es) t = ring-tee_run es t
ring-tee_run (unset w ∷ es) t = ring-tee_run es (unset_live t w)

-- After any events, writers that failed included, the scrollback is the last `cap` bytes of all
-- that was there or was written.
pub snapshot-tee_run :
    (es : List Event) (t : Tee)
    → IsValid t.ring
    → snapshot (tee_run t es).0.ring ≡ newest t.ring.cap (snapshot t.ring ++ concat (chunks es))
snapshot-tee_run es t v = rw (ring-tee_run es t) (snapshot-write_all (chunks es) t.ring v)

received-mirrored :
    (ps : List (List ℕ)) (w : ℕ) (r : Ring)
    → received w (tee_run (record { ring = r; live = some w }) (mirrored ps)).1 ≡ concat ps
unfolding tee_run received concat
received-mirrored [] w r = refl
received-mirrored (p ∷ ps) w r = rw (received-mirrored ps w (write r p).0, (==_iff w w).1 refl)

-- The handover: a writer that goes live after any events receives the scrollback of them, and then
-- every later chunk once and in order, as long as it accepts them.
pub tee_handover :
    (before : List Event) (t : Tee) (w : ℕ) (ps : List (List ℕ))
    → IsValid t.ring
    → received w (tee_run (tee_run t before).0 (went_live w true ∷ mirrored ps)).1
      ≡ newest t.ring.cap (snapshot t.ring ++ concat (chunks before)) ++ concat ps
unfolding tee_run received
tee_handover before t w ps v = rw (
  (==_iff w w).1 refl,
  received-mirrored ps w (tee_run t before).0.ring,
  ← snapshot-tee_run before t v,
)
