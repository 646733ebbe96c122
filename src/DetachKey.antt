-- ===== src/DetachKey.antt =====
-- internal/detachkey/detachkey.go: the two in-session hotkeys, their names and their bytes. The
-- tables are association lists; Go's map order only matters to Name, where no byte occurs twice.
pub mod Bindable
mod Tests
use wharf_tui.Base.{ℕ, Bool, Option, none, some, List, [], ◌∷◌, map, if◌then◌else◌, ◌==◌, leb, not}
use wharf_tui.Base.Text.{Str, codes, str_eq, Unicode, to_lower, trim_space, has_prefix}
use wharf_tui.Base.Results.{Result, ok, err, ◌>>=◌}

pub record Binding : Type 0 where
  pub which : ℕ
  pub label : Str
  pub default_name : Str
  pub default_byte : ℕ

-- Detach
abbrev pub detach : Binding
detach = record {
  which = 0;
  label = codes "detach key";
  default_name = codes "ctrl+\\";
  default_byte = 28;
}

-- RemoteAccess
abbrev pub remote_access : Binding
remote_access = record {
  which = 1;
  label = codes "remote-access key";
  default_name = codes "ctrl+]";
  default_byte = 29;
}

unfoldable pub other : Binding → Binding
other b = if Binding.which b == Binding.which remote_access then detach else remote_access

abbrev pub allowed : List (Str × ℕ)
allowed =
    (codes "ctrl+a", 1)
    ∷ (codes "ctrl+b", 2)
    ∷ (codes "ctrl+e", 5)
    ∷ (codes "ctrl+f", 6)
    ∷ (codes "ctrl+g", 7)
    ∷ (codes "ctrl+k", 11)
    ∷ (codes "ctrl+l", 12)
    ∷ (codes "ctrl+n", 14)
    ∷ (codes "ctrl+o", 15)
    ∷ (codes "ctrl+p", 16)
    ∷ (codes "ctrl+r", 18)
    ∷ (codes "ctrl+t", 20)
    ∷ (codes "ctrl+u", 21)
    ∷ (codes "ctrl+v", 22)
    ∷ (codes "ctrl+w", 23)
    ∷ (codes "ctrl+x", 24)
    ∷ (codes "ctrl+y", 25)
    ∷ (codes "ctrl+\\", 28)
    ∷ (codes "ctrl+]", 29)
    ∷ (codes "ctrl+^", 30)
    ∷ (codes "ctrl+_", 31)
    ∷ []

abbrev pub reserved : List (Str × Str)
reserved =
    (codes "ctrl+c", codes "interrupt — the remote shell needs it")
    ∷ (codes "ctrl+d", codes "end of input — the remote shell needs it")
    ∷ (codes "ctrl+z", codes "suspend — the remote shell needs it")
    ∷ (codes "ctrl+[", codes "escape — arrow keys and vim are built on it")
    ∷ (codes "esc", codes "escape — arrow keys and vim are built on it")
    ∷ (codes "ctrl+h", codes "backspace")
    ∷ (codes "backspace", codes "backspace")
    ∷ (codes "tab", codes "tab")
    ∷ (codes "ctrl+i", codes "tab")
    ∷ (codes "enter", codes "enter")
    ∷ (codes "ctrl+m", codes "enter")
    ∷ (codes "ctrl+j", codes "newline")
    ∷ (codes "ctrl+s", codes "flow control (XOFF)")
    ∷ (codes "ctrl+q", codes "flow control (XON), and quits wharf")
    ∷ (codes "ctrl+@", codes "NUL")
    ∷ []

-- A lookup in one of the tables.
unfoldable pub entry {ℓ} : {A : Type ℓ} → List (Str × A) → Str → Option A
entry [] name = none
entry ((key, val) ∷ table) name = if str_eq key name then some val else entry table name

-- What a name is refused for, with what the message quotes.
pub data Refusal : Type 0 where
  reserved_key not_a_control_key not_usable already_bound : Str → Str → Refusal

-- The name of a byte in a table.
unfoldable pub name_in : List (Str × ℕ) → ℕ → Option Str
name_in [] v = none
name_in ((name, have') ∷ table) v = if have' == v then some name else name_in table v

-- Binding.Name
unfoldable pub name_of : Binding → ℕ → Str
unfolding name_in
name_of b v = elim (name_in allowed v) [ some name ↦ name | none ↦ Binding.default_name b ]

-- The loop of sort.Slice, by the bytes: `sort.Slice` sorts, and no two bytes are equal.
unfoldable pub insert_by_byte : Str × ℕ → List (Str × ℕ) → List (Str × ℕ)
insert_by_byte p [] = p ∷ []
insert_by_byte p (q ∷ qs) = if leb p.1 q.1 then p ∷ q ∷ qs else q ∷ insert_by_byte p qs

unfoldable pub sort_by_byte : List (Str × ℕ) → List (Str × ℕ)
unfolding insert_by_byte
sort_by_byte [] = []
sort_by_byte (p ∷ ps) = insert_by_byte p (sort_by_byte ps)

-- Names
unfoldable pub names : List Str
unfolding sort_by_byte
names = map (λ p. p.0) (sort_by_byte allowed)

module _ (u : Unicode) where
  -- The tests of Parse on a name that is not empty.
  unfoldable pub resolve_name : Binding → Str → Result Refusal ℕ
  resolve_name b n = elim (entry allowed n) [
    | some v ↦ ok v
    | none ↦ elim (entry reserved n) [
      | some why ↦ err (reserved_key n why)
      | none ↦
          if not (has_prefix n (codes "ctrl+"))
          then err (not_a_control_key n (Binding.label b))
          else err (not_usable n (Binding.label b))
    ]
  ]

  -- Binding.Parse
  unfoldable pub parse : Binding → Str → Result Refusal ℕ
  unfolding resolve_name
  parse b name =
      let n = to_lower u (trim_space u name) in
      if str_eq n [] then ok (Binding.default_byte b) else resolve_name b n

  -- Binding.Byte
  unfoldable pub byte_of : Binding → Str → ℕ
  byte_of b name = elim (parse b name) [ ok v ↦ v | err e ↦ Binding.default_byte b ]

  -- Binding.ParseAgainst
  unfoldable pub parse_against : Binding → Str → Str → Result Refusal ℕ
  parse_against b name other_name = parse b name >>= λ v.
      if v == byte_of (other b) other_name
      then err (already_bound (name_of (other b) v) (Binding.label (other b)))
      else ok v
