-- ===== src/ContactList.antt =====
-- examples/notifier/contact_list: ContactInfo and ContactList, with the std::istream that it reads.
-- ContactList::Load is ParseCSV on the open file.
pub mod Syntax
pub mod Lines
pub mod Loads
use guicpp.Base.{
  ℕ, zero, suc, ◌-◌, List, [], ◌∷◌, ◌++◌, length, Bool, true, false, not, ◌&&◌, Option, none, some,
  ◌==◌, if◌then◌else◌,
}
use guicpp.Outcome.{Outcome, ok, out_of_fuel, and_then}
use guicpp.CString.{Bytes, codes, drop, strpbrk, c_string, substring}
use guicpp.CString.StringMap.{StringMap, find_key, store_key}

-- ContactInfo
pub record ContactInfo : Type 0 where
  pub nickname : Bytes
  pub complete_name : Bytes
  pub email_id : Bytes
  pub mobile_number : Bytes

-- A std::istream: what is not read yet, eofbit and failbit.
pub record Stream : Type 0 where
  pub unread : Bytes
  pub eof : Bool
  pub bad : Bool

-- std::istream::good
abbrev pub good : Stream → Bool
good f = not f.eof && not f.bad

-- How getline stops: at the end of the file, behind a newline, or with no room left.
pub data Ending : Type 0 where
  at_end at_newline at_limit : Ending

-- The characters that getline stores when there is room for so many, and those it leaves.
unfoldable pub take_line : ℕ → Bytes → Bytes × Bytes × Ending
take_line room [] = ([], [], at_end)
take_line zero (c ∷ cs) = if c == b'\n' then ([], cs, at_newline) else ([], c ∷ cs, at_limit)
take_line (suc room) (c ∷ cs) =
    let (s, rest, e) = take_line room cs in
    if c == b'\n' then ([], cs, at_newline) else (c ∷ s, rest, e)

-- getline extracted nothing.
abbrev pub nothing : Bytes → Ending → Bool
nothing [] at_end = true
nothing [] at_limit = true
nothing _ _ = false

-- The flags that getline sets.
unfoldable pub after_line : Bytes → Bytes → Ending → Stream
after_line s rest at_end = record { unread = rest; eof = true; bad = nothing s at_end }
after_line s rest at_newline = record { unread = rest; eof = false; bad = false }
after_line s rest at_limit = record { unread = rest; eof = false; bad = true }

-- std::istream::getline(line, room + 1) on a good stream: the stream, and the array with the line
-- and a NUL written over its front.
unfoldable pub getline : ℕ → Stream → Bytes → Stream × Bytes
unfolding take_line after_line
getline room f line =
    let (s, rest, e) = take_line room f.unread in
    (after_line s rest e, s ++ 0 ∷ drop (suc (length s)) line)

-- readValue: where to read on, and the value it assigns, if it does.
unfoldable pub read_value : Bytes → Option ℕ → Outcome (Option ℕ × Bytes)
read_value line none = ok (none, [])
read_value line (some start) = and_then (strpbrk line start (codes ",\n")) λ end. elim end [
  | some e ↦ ok (some (suc e), substring line start (e - start))
  | none ↦ and_then (c_string line start) (λ value. ok (none, value))
]

-- One round of the loop of ParseCSV, behind getline. Its `end` is not used.
unfoldable pub read_contact : Bytes → Outcome ContactInfo
read_contact line = and_then (strpbrk line 0 (codes ",\n")) λ end.
    and_then (read_value line (some 0)) λ a. and_then (read_value line a.0) λ b.
      and_then (read_value line b.0) λ c.
        and_then (read_value line c.0) λ d.
          ok record { nickname = a.1; complete_name = b.1; email_id = c.1; mobile_number = d.1 }

-- kMaxLineLength - 1
unfoldable pub line_room : ℕ
line_room = 9999

-- The loop of ContactList::ParseCSV, with fuel for the rounds.
unfoldable pub parse_loop :
    ℕ → Stream → Bytes → StringMap ContactInfo → Outcome (StringMap ContactInfo)
parse_loop zero f line m = out_of_fuel
parse_loop (suc fuel) f line m =
    let (g, filled) = getline line_room f line in
    let next =
      and_then (read_contact filled) (λ c. parse_loop fuel g filled (store_key c.nickname c m)) in
    if good f then next else ok m

-- ContactList::ParseCSV on an open file, with whatever is in the array at first.
unfoldable pub parse_csv : Bytes → Bytes → Outcome (StringMap ContactInfo)
unfolding parse_loop
parse_csv text line =
    parse_loop (suc (suc (length text))) (record { unread = text; eof = false; bad = false }) line
      []

-- ContactList::GetContact
unfoldable pub get_contact : Bytes → StringMap ContactInfo → Option ContactInfo
get_contact nickname m = find_key nickname m
