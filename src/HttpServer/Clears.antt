-- ===== src/HttpServer/Clears.antt =====
-- ReadHttpRequest writes NULs only: what is zero from some place on stays zero.
use guicpp.Base.{
  ℕ, zero, suc, ◌+◌, ◌≡◌, refl, ◌∙◌, [], ◌∷◌, length, length-set, set, All, Bool, true, false, ◌==◌,
  Option, none, some, ltb, if◌then◌else◌, get_elem?, same,
}
use guicpp.Outcome.{ok, undefined, Action, pure, ◌>>=◌}
use guicpp.Outcome.Keeps.{Post, Keeps, IsPreorder, Keeps->>=, Keeps-lift, Keeps-if}
use guicpp.CString.{Bytes, codes, drop, strchr, strpbrk, strstr, c_string}
use guicpp.CString.StringMap.{text_discrete}
use guicpp.HttpServer.{
  Parsing, put_nul, end_at, end_behind, cut_at_char, cut_at_any, char_at, read_arg, read_arg_at,
  store_arg, read_args, Cursor, finished, at, get_cursor, post_cursor, find_cursor, read_at,
  read_http_request, strchr_in, strpbrk_in, strstr_in, string_at, string_between, end_of_headers,
}

abbrev pub IsZero : Bytes → Type 0
IsZero = All (λ c. c ≡ 0)

-- The array keeps its length, and where it is zero from a place on, it stays so.
pub record Clears (s t : Parsing) : Type 0 where
  pub same_length : length t.buff ≡ length s.buff
  pub still_zero : (k : ℕ) → IsZero (drop k s.buff) → IsZero (drop k t.buff)

IsZero-drop-set : (k p : ℕ) (l : Bytes) → IsZero (drop k l) → IsZero (drop k (set l p 0))
IsZero-drop-set k p [] h = h
IsZero-drop-set zero zero (x ∷ l) h = (refl, h.1)
IsZero-drop-set zero (suc p) (x ∷ l) h = (h.0, IsZero-drop-set zero p l h.1)
IsZero-drop-set (suc k) zero (x ∷ l) h = h
IsZero-drop-set (suc k) (suc p) (x ∷ l) h = IsZero-drop-set k p l h

Clears-refl : (s : Parsing) → Clears s s
Clears-refl s = record { same_length = refl; still_zero = λ k h. h }

Clears-IsPreorder : IsPreorder Clears
unfolding Clears-refl
Clears-IsPreorder = record {
  reflexive = Clears-refl;
  transitive = λ s t u a b. record {
    same_length = b.same_length ∙ a.same_length;
    still_zero = λ k h. b.still_zero k (a.still_zero k h);
  };
}

-- Each step of ReadHttpRequest.
put_nul-Clears : (p : ℕ) → Keeps Clears (put_nul p)
unfolding put_nul
put_nul-Clears p s = go (ltb p (length s.buff))
  where
    go :
        (b : Bool)
        → Post (Clears s) (if b then ok (tt, record s { buff = set s.buff p 0 }) else undefined)
    go true = record {
      same_length = length-set s.buff p 0;
      still_zero = λ k. IsZero-drop-set k p s.buff;
    }
    go false = tt

bind-Clears :
    {A B : Type 0} (m : Action Parsing A) (f : A → Action Parsing B)
    → Keeps Clears m
    → ((a : A) → Keeps Clears (f a))
    → Keeps Clears (m >>= f)
bind-Clears m f = Keeps->>= Clears-IsPreorder m f

find-Clears : (p c : ℕ) → Keeps Clears (strchr_in p c)
find-Clears p c s = Keeps-lift Clears-IsPreorder (strchr s.buff p c) s

any-Clears : (p : ℕ) (accept : Bytes) → Keeps Clears (strpbrk_in p accept)
any-Clears p accept s = Keeps-lift Clears-IsPreorder (strpbrk s.buff p accept) s

end_at-Clears : (e : Option ℕ) → Keeps Clears (end_at e)
unfolding end_at
end_at-Clears none = Clears-refl
end_at-Clears (some p) = put_nul-Clears p

cut_at_char-Clears : (p c : ℕ) → Keeps Clears (cut_at_char p c)
unfolding cut_at_char
cut_at_char-Clears p c = bind-Clears (strchr_in p c) end_at (find-Clears p c) end_at-Clears

cut_at_any-Clears : (p : ℕ) (accept : Bytes) → Keeps Clears (cut_at_any p accept)
unfolding cut_at_any
cut_at_any-Clears p accept =
    bind-Clears (strpbrk_in p accept) end_at (any-Clears p accept) end_at-Clears

end_behind-Clears : (e : Option ℕ) → Keeps Clears (end_behind e)
unfolding end_behind
end_behind-Clears none = Clears-refl
end_behind-Clears (some p) =
    bind-Clears (put_nul p) (λ _. pure (some (suc p))) (put_nul-Clears p) (λ _. Clears-refl)

string_at-Clears : (p : ℕ) → Keeps Clears (string_at p)
string_at-Clears p s = Keeps-lift Clears-IsPreorder (c_string s.buff p) s

read_arg-Clears : (p : ℕ) (e : Option ℕ) → Keeps Clears (read_arg p e)
unfolding read_arg
read_arg-Clears p none =
    bind-Clears (string_at p) (λ key. pure (key, codes "1")) (string_at-Clears p) (λ _. Clears-refl)
read_arg-Clears p (some q) =
    bind-Clears (string_between p q) (λ key. string_at (suc q) >>= λ value. pure (key, value))
      Clears-refl
      λ key.
        bind-Clears (string_at (suc q)) (λ value. pure (key, value)) (string_at-Clears (suc q))
          λ _. Clears-refl

read_arg_at-Clears : (p : ℕ) → Keeps Clears (read_arg_at p)
unfolding read_arg_at
read_arg_at-Clears p =
    bind-Clears (strchr_in p b'=') (read_arg p) (find-Clears p b'=') (read_arg-Clears p)

store_arg-Clears : (a : Bytes × Bytes) → Keeps Clears (store_arg a)
unfolding store_arg
store_arg-Clears (k, v) s = record { same_length = refl; still_zero = λ k h. h }

read_args-Clears : (fuel p : ℕ) → Keeps Clears (read_args fuel p)
unfolding read_args
read_args-Clears zero p = λ s. tt
read_args-Clears (suc fuel) p = bind-Clears (strchr_in p b'&') _ (find-Clears p b'&') λ e.
    bind-Clears (end_behind e) _ (end_behind-Clears e) λ next.
      bind-Clears (read_arg_at p) _ (read_arg_at-Clears p)
        λ a. bind-Clears (store_arg a) _ (store_arg-Clears a) λ _. more (read_args-Clears fuel) next
  where
    more :
        ((q : ℕ) → Keeps Clears (read_args fuel q))
        → (next : Option ℕ)
        → Keeps Clears (elim next [ none ↦ pure tt | some q ↦ read_args fuel q ])
    more h none = Clears-refl
    more h (some q) = h q

get_cursor-Clears : Keeps Clears get_cursor
unfolding get_cursor
get_cursor-Clears = bind-Clears (cut_at_char 0 b'\r') _ (cut_at_char-Clears 0 b'\r') λ _.
    bind-Clears (cut_at_char 0 b'\n') _ (cut_at_char-Clears 0 b'\n')
      λ _. bind-Clears (strchr_in 0 b'?') _ (find-Clears 0 b'?') λ _. Clears-refl

char_at-Clears : (p : ℕ) → Keeps Clears (char_at p)
unfolding char_at
char_at-Clears p s = go (get_elem? s.buff p)
  where
    go : (o : Option ℕ) → Post (Clears s) (elim o [ none ↦ undefined | some c ↦ ok (c, s) ])
    go none = tt
    go (some c) = Clears-refl s

post_cursor-Clears : Keeps Clears post_cursor
unfolding post_cursor
post_cursor-Clears =
    bind-Clears (strstr_in 0 end_of_headers) _
      (λ s. Keeps-lift Clears-IsPreorder (strstr s.buff 0 end_of_headers) s) go
  where
    go :
        (end : Option ℕ)
        → Keeps Clears (elim end [
          | none ↦ pure (finished false)
          | some p ↦ char_at (p + 4) >>= λ c. pure (if c == 0 then finished true else at (p + 4))
        ])
    go none = Clears-refl
    go (some p) = bind-Clears (char_at (p + 4)) _ (char_at-Clears (p + 4)) λ _. Clears-refl

find_cursor-Clears : (method : Bytes) → Keeps Clears (find_cursor method)
unfolding find_cursor
find_cursor-Clears method =
    Keeps-if Clears (same text_discrete method (codes "GET")) get_cursor _ get_cursor-Clears (
      Keeps-if Clears (same text_discrete method (codes "POST")) post_cursor _ post_cursor-Clears
        Clears-refl)

read_at-Clears : (c : Cursor) → Keeps Clears (read_at c)
unfolding read_at
read_at-Clears (finished b) = Clears-refl
read_at-Clears (at p) =
    bind-Clears (cut_at_any p (codes " \r\n")) _ (cut_at_any-Clears p (codes " \r\n")) λ _.
      bind-Clears (λ s. read_args (length s.buff) p s) _ (λ s. read_args-Clears (length s.buff) p s)
        λ _. Clears-refl

pub read_http_request-Clears : Keeps Clears read_http_request
unfolding read_http_request
read_http_request-Clears = bind-Clears (strpbrk_in 0 (codes " ")) _ (any-Clears 0 (codes " ")) go
  where
    go :
        (end : Option ℕ)
        → Keeps Clears (elim end [
          | none ↦ pure false
          | some p ↦ string_between 0 p >>= λ method. find_cursor method >>= read_at
        ])
    go none = Clears-refl
    go (some p) = bind-Clears (string_between 0 p) _ Clears-refl λ method.
        bind-Clears (find_cursor method) read_at (find_cursor-Clears method) read_at-Clears
