-- ===== src/ContactList/Loads.antt =====
-- ParseCSV stores the contacts of the lines of its file.
use guicpp.Base.{
  ℕ, zero, suc, ◌≤◌, ◌<◌, ◌≡◌, refl, ap, subst, ◌∙◌, List, [], ◌∷◌, ◌++◌, length, length-append,
  false, Bool-cases, none, Option-cases, ltb, inl, inr, arith,
}
use guicpp.Outcome.{ok}
use guicpp.CString.{Bytes, drop, take, is_char}
use guicpp.CString.Nul.{nul-splits}
use guicpp.CString.Split.{split, split_lem}
use guicpp.CString.StringMap.{StringMap, store_key, find_key, find_key-store_key}
use guicpp.CString.Text.{before, after, before-none, after-splits}
use guicpp.ContactList.{
  ContactInfo, Stream, Ending, at_end, at_newline, at_limit, take_line, after_line, getline,
  read_contact, line_room, parse_loop, parse_csv, get_contact, good,
}
use guicpp.ContactList.Lines.{
  newline, take_line-last, take_line-more, take_line-long, read_contact_lem,
}
use guicpp.ContactList.Syntax.{line_contact, usable, store_lines, last_contact}

-- The contact of a stored line, whatever the array holds behind it.
stored_lem : (s behind : Bytes) → read_contact (s ++ 0 ∷ behind) ≡ ok (line_contact s)
unfolding line_contact
stored_lem s behind =
    let (rest, e, free) = nul-splits s behind in
    read_contact_lem (s ++ 0 ∷ behind) (before (is_char 0) s)
      (record { rest = rest; splits = e; nul_free = free })

abbrev fresh : Bytes → Stream
fresh xs = record { unread = xs; eof = false; bad = false }

getline_lem :
    (xs s rest line : Bytes) (e : Ending)
    → take_line line_room xs ≡ (s, rest, e)
    → getline line_room (fresh xs) line ≡ (after_line s rest e, s ++ 0 ∷ drop (suc (length s)) line)
unfolding getline
getline_lem xs s rest line e t = rw t refl

-- A round.
round :
    (fuel : ℕ) (xs s rest line : Bytes) (e : Ending) (m : StringMap ContactInfo)
    → take_line line_room xs ≡ (s, rest, e)
    → parse_loop (suc fuel) (fresh xs) line m
      ≡ parse_loop fuel
          (after_line s rest e)
          (s ++ 0 ∷ drop (suc (length s)) line)
          (store_key (line_contact s).nickname (line_contact s) m)
unfolding parse_loop
round fuel xs s rest line e m t =
    rw (getline_lem xs s rest line e t, stored_lem s (drop (suc (length s)) line)) refl

-- The loop stops where getline set a flag.
stopped :
    (fuel : ℕ) (f : Stream) (line : Bytes) (m : StringMap ContactInfo)
    → good f ≡ false
    → parse_loop (suc fuel) f line m ≡ ok m
unfolding parse_loop
stopped fuel f line m h = rw h refl

round-at_limit :
    (fuel : ℕ) (xs s rest line : Bytes) (m : StringMap ContactInfo)
    → take_line line_room xs ≡ (s, rest, at_limit)
    → parse_loop (suc (suc fuel)) (fresh xs) line m
      ≡ ok (store_key (line_contact s).nickname (line_contact s) m)
unfolding after_line
round-at_limit fuel xs s rest line m t =
    round (suc fuel) xs s rest line at_limit m t ∙ stopped fuel _ _ _ refl

round-at_end :
    (fuel : ℕ) (xs s rest line : Bytes) (m : StringMap ContactInfo)
    → take_line line_room xs ≡ (s, rest, at_end)
    → parse_loop (suc (suc fuel)) (fresh xs) line m
      ≡ ok (store_key (line_contact s).nickname (line_contact s) m)
unfolding after_line
round-at_end fuel xs s rest line m t =
    round (suc fuel) xs s rest line at_end m t ∙ stopped fuel _ _ _ refl

round-at_newline :
    (fuel : ℕ) (xs s rest line : Bytes) (m : StringMap ContactInfo)
    → take_line line_room xs ≡ (s, rest, at_newline)
    → parse_loop (suc fuel) (fresh xs) line m
      ≡ parse_loop fuel
          (fresh rest)
          (s ++ 0 ∷ drop (suc (length s)) line)
          (store_key (line_contact s).nickname (line_contact s) m)
unfolding after_line
round-at_newline fuel xs s rest line m t = round fuel xs s rest line at_newline m t

-- The rounds for a text with fuel above its length.
parse_loop_lem :
    (fuel : ℕ) (xs line : Bytes) (m : StringMap ContactInfo)
    → suc (length xs) < fuel
    → parse_loop fuel (fresh xs) line m ≡ ok (store_lines (usable line_room (split newline xs)) m)
unfolding store_lines usable
parse_loop_lem zero xs line m h = absurd (omega (arith, h))
parse_loop_lem (suc zero) xs line m h = absurd (omega (arith, h))
parse_loop_lem (suc (suc fuel)) xs line m h =
    let first = before newline xs in
    elim (Bool-cases (ltb line_room (length first))) [
      | inl long ↦
          let (rest, t) = take_line-long line_room xs (ground (arith, long)) in
          round-at_limit fuel xs (take line_room first) rest line m t
          ∙ rw (split_lem newline xs, long) refl
      | inr short ↦
          let room : length first ≤ line_room = ground (arith, short) in
          elim (Option-cases (after newline xs)) [
            | inl e ↦
                let whole = before-none newline xs e in
                let t =
                  take_line-last line_room xs e (subst (λ l. length l ≤ line_room) whole room) in
                round-at_end fuel xs xs [] line m t
                ∙ rw (split_lem newline xs, short, e, whole) refl
            | inr (b, e) ↦
                let t = take_line-more line_room xs b e room in
                let (c, q) = after-splits newline xs b e in
                let shorter : suc (length b) < suc fuel =
                  omega (arith, h, length-append first (c ∷ b), ap length q) in
                round-at_newline (suc fuel) xs first b line m t
                ∙ parse_loop_lem (suc fuel) b (first ++ 0 ∷ drop (suc (length first)) line)
                    (store_key (line_contact first).nickname (line_contact first) m) shorter
                ∙ rw (split_lem newline xs, short, e) refl
          ]
    ]

-- Whatever its line array holds at first, ParseCSV ends, reads only what getline stored there, and
-- stores the contacts of the lines of the file in their order, where a line of more than
-- kMaxLineLength - 1 characters is cut to so many and nothing behind it is read.
pub parse_csv_lem :
    (text line : Bytes)
    → parse_csv text line ≡ ok (store_lines (usable line_room (split newline text)) [])
unfolding parse_csv
parse_csv_lem text line = parse_loop_lem (suc (suc (length text))) text line [] (omega arith)

find_key-store_lines :
    (k : Bytes) (ls : List Bytes) (m : StringMap ContactInfo)
    → find_key k (store_lines ls m) ≡ last_contact k ls (find_key k m)
unfolding store_lines last_contact
find_key-store_lines k [] m = refl
find_key-store_lines k (l ∷ ls) m =
    rw (← find_key-store_key k (line_contact l).nickname (line_contact l) m)
      (find_key-store_lines k ls (store_key (line_contact l).nickname (line_contact l) m))

-- If ParseCSV returned a map for a text, GetContact gives the contact of the last line with the
-- nickname among the lines that were read, or NULL where none has it.
pub get_contact-parse_csv :
    (k text line : Bytes) (m : StringMap ContactInfo)
    → parse_csv text line ≡ ok m
    → get_contact k m ≡ last_contact k (usable line_room (split newline text)) none
unfolding get_contact find_key
get_contact-parse_csv k text line m e =
    let same_map : m ≡ store_lines (usable line_room (split newline text)) [] =
      cc (e, parse_csv_lem text line) in
    ap (find_key k) same_map ∙ find_key-store_lines k (usable line_room (split newline text)) []
