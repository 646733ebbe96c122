-- ===== src/DetachKey/Tests.antt =====
-- Names as a user may write them, and the theorems applied to them.
use wharf_tui.Base.{◌≡◌, ◌↔◌, refl, inl, some, map}
use wharf_tui.Base.Text.{Str, codes, ascii, str_eq, to_lower, trim_space, trim_left}
use wharf_tui.Base.Results.{ok, err}
use wharf_tui.DetachKey.{
  detach, remote_access, other, allowed, entry, already_bound, reserved_key, name_of, names, parse,
  byte_of, parse_against, sort_by_byte,
}
use wharf_tui.DetachKey.Bindable.{
  parse-name_of, parse-reserved, byte_of-IsBindable, parse_against_iff, IsUnbound,
}

-- The table stands in byte order.
names_run : names ≡ map (λ p. p.0) allowed
unfolding names sort_by_byte
names_run = refl

-- A shouted default of the other binding is refused.
parse_against_run :
    parse_against ascii remote_access (codes " CTRL+\\ ") (codes "")
    ≡ err (already_bound (codes "ctrl+\\") (codes "detach key"))
unfolding parse_against parse byte_of other name_of to_lower trim_space trim_left entry str_eq
parse_against_run = refl

parse-name_of_example :
    (name_of detach 7 ≡ codes "ctrl+g") × (parse ascii detach (codes "ctrl+g") ≡ ok 7)
unfolding entry str_eq
parse-name_of_example = parse-name_of ascii detach (codes "ctrl+g") 7 refl

reserved_run :
    parse ascii detach (codes "Ctrl+H") ≡ err (reserved_key (codes "ctrl+h") (codes "backspace"))
unfolding entry str_eq to_lower trim_space trim_left
reserved_run = parse-reserved ascii detach (codes "Ctrl+H") (codes "backspace") refl

byte_of-IsBindable_example :
    (n : Str) × (entry allowed n ≡ some (byte_of ascii detach (codes "nonsense")))
byte_of-IsBindable_example = byte_of-IsBindable ascii detach (codes "nonsense") (inl refl)

parse_against_iff_example :
    ((parse_against ascii detach (codes "ctrl+g") (codes "ctrl+h") ≡ ok 7) ↔ (
      (parse ascii detach (codes "ctrl+g") ≡ ok 7)
      × IsUnbound ascii remote_access (codes "ctrl+h") 7))
    × ((parse_against ascii remote_access (codes "ctrl+g") (codes "ctrl+h") ≡ ok 7) ↔ (
        (parse ascii remote_access (codes "ctrl+g") ≡ ok 7)
        × IsUnbound ascii detach (codes "ctrl+h") 7))
parse_against_iff_example = parse_against_iff ascii (codes "ctrl+g") (codes "ctrl+h") 7
