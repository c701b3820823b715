-- ===== src/ContactList/Syntax.antt =====
-- What a contact file means, read off its text.
use guicpp.Base.{ℕ, zero, suc, List, [], ◌∷◌, length, Option, some, ltb, if◌then◌else◌, same}
use guicpp.CString.{Bytes, take, is_char, is_one_of, codes}
use guicpp.CString.Split.{split}
use guicpp.CString.StringMap.{StringMap, store_key, text_discrete}
use guicpp.CString.Text.{before}
use guicpp.ContactList.{ContactInfo}

-- The value at a place of a list of values, empty where there is none.
abbrev pub value_at : ℕ → List Bytes → Bytes
value_at n [] = []
value_at zero (v ∷ vs) = v
value_at (suc n) (v ∷ vs) = value_at n vs

abbrev pub contact : List Bytes → ContactInfo
contact vs = record {
  nickname = value_at 0 vs;
  complete_name = value_at 1 vs;
  email_id = value_at 2 vs;
  mobile_number = value_at 3 vs;
}

-- The contact of a line: its first four values, the line reaching to its first NUL.
unfoldable pub line_contact : Bytes → ContactInfo
line_contact l = contact (split (is_one_of (codes ",\n")) (before (is_char 0) l))

-- The lines up to the first that is too long, and as much of that one as there is room for.
unfoldable pub usable : ℕ → List Bytes → List Bytes
usable room [] = []
usable room (l ∷ ls) =
    let more = usable room ls in if ltb room (length l) then take room l ∷ [] else l ∷ more

-- The contacts of the lines, the last one with a nickname staying.
unfoldable pub store_lines : List Bytes → StringMap ContactInfo → StringMap ContactInfo
store_lines [] m = m
store_lines (l ∷ ls) m = store_lines ls (store_key (line_contact l).nickname (line_contact l) m)

-- The contact of the last line with a nickname.
unfoldable pub last_contact : Bytes → List Bytes → Option ContactInfo → Option ContactInfo
last_contact k [] o = o
last_contact k (l ∷ ls) o =
    last_contact k ls
      (if same text_discrete (line_contact l).nickname k then some (line_contact l) else o)
