-- ===== src/Ring/Stream.antt =====
-- Any sequence of writes: the snapshot is the newest bytes of the whole stream, however it was cut.
use wharf_tui.Base.{
  ℕ, ◌+◌, ◌-◌, ◌≤◌, ◌≡◌, ◌∙◌, ap, sym, refl, arith, List, [], ◌∷◌, ◌++◌, append_assoc, append-nil,
  length, concat, drop, length-append, length-drop, zero, suc,
}
use wharf_tui.Ring.{Ring, write, snapshot, IsValid}
use wharf_tui.Ring.Index.{length-snapshot}
use wharf_tui.Ring.Write.{newest, snapshot-write, write-IsValid}

unfoldable pub write_all : Ring → List (List ℕ) → Ring
write_all r [] = r
write_all r (p ∷ ps) = write_all (write r p).0 ps

pub cap-write : (r : Ring) (p : List ℕ) → (write r p).0.cap ≡ r.cap
unfolding write
cap-write r p = ground arith

drop-append : (n : ℕ) (xs ys : List ℕ) → n ≤ length xs → drop n xs ++ ys ≡ drop n (xs ++ ys)
drop-append zero xs ys h = refl
drop-append (suc n) [] ys h = absurd (omega arith)
drop-append (suc n) (x ∷ xs) ys h = drop-append n xs ys (omega arith)

drop-nil : (n : ℕ) → drop {A = ℕ} n [] ≡ []
drop-nil zero = refl
drop-nil (suc n) = refl

drop-drop : (m n : ℕ) (xs : List ℕ) → drop m (drop n xs) ≡ drop (n + m) xs
drop-drop m zero xs = ap (λ k. drop k xs) (omega arith)
drop-drop m (suc n) [] = drop-nil m ∙ sym (drop-nil (suc n + m))
drop-drop m (suc n) (x ∷ xs) =
    let e : suc n + m ≡ suc (n + m) = omega arith in rw e (drop-drop m n xs)

-- Cutting early loses nothing that a later cut would keep.
pub newest-append : (n : ℕ) (xs ys : List ℕ) → newest n (newest n xs ++ ys) ≡ newest n (xs ++ ys)
newest-append n xs ys = rw (drop-append (length xs - n) xs ys (omega arith)) (
    drop-drop (length (drop (length xs - n) (xs ++ ys)) - n) (length xs - n) (xs ++ ys)
    ∙ ap (λ k. drop k (xs ++ ys))
        (omega (arith, length-drop (length xs - n) (xs ++ ys), length-append xs ys)))

newest-snapshot : (r : Ring) → IsValid r → newest r.cap (snapshot r) ≡ snapshot r
newest-snapshot r v =
    let e : length (snapshot r) - r.cap ≡ 0 = omega (arith, v, length-snapshot r) in rw e

-- After any writes, `Snapshot` is the last `cap` bytes of all that was there or was written.
pub snapshot-write_all :
    (ps : List (List ℕ)) (r : Ring)
    → IsValid r
    → snapshot (write_all r ps) ≡ newest r.cap (snapshot r ++ concat ps)
unfolding write_all concat
snapshot-write_all [] r v = rw append-nil (sym (newest-snapshot r v))
snapshot-write_all (p ∷ ps) r v = rw (
  snapshot-write_all ps (write r p).0 (write-IsValid r p v),
  cap-write r p,
  snapshot-write r p v,
  newest-append r.cap (snapshot r ++ p) (concat ps),
  append_assoc,
)

pub write_all-IsValid : (ps : List (List ℕ)) (r : Ring) → IsValid r → IsValid (write_all r ps)
unfolding write_all
write_all-IsValid [] r v = v
write_all-IsValid (p ∷ ps) r v = write_all-IsValid ps (write r p).0 (write-IsValid r p v)
