-- ===== src/HttpServer/Args.antt =====
-- The loop of ReadHttpRequest stores the arguments of its text.
use guicpp.Base.{
  ℕ, zero, suc, ◌+◌, ◌-◌, ◌<◌, ◌≡◌, refl, sym, ap, ◌∙◌, List, [], ◌∷◌, length, some, Option-cases,
  inl, inr, arith, set, length-append, Bool,
}
use guicpp.Outcome.{ok}
use guicpp.CString.{Bytes, strchr, is_char}
use guicpp.CString.Text.{
  Text, before, after, before-none, after-splits, scan-Text-none, scan-Text-some, c_string-Text,
  substring-Text, Text-after, Text-before, Text-behind, found-inside,
}
use guicpp.HttpServer.{Parsing, put_nul, end_behind, read_arg, read_arg_at, store_arg, read_args}
use guicpp.CString.Split.{split, split_lem}
use guicpp.HttpServer.Syntax.{argument, store_all}

pub put_nul-inside :
    (p : ℕ) (s : Parsing)
    → p < length s.buff
    → put_nul p s ≡ ok (tt, record s { buff = set s.buff p 0 })
unfolding put_nul
put_nul-inside p s h = ground arith

read_arg_at_lem :
    (p : ℕ) (f : Bytes) (s : Parsing) → Text s.buff p f → read_arg_at p s ≡ ok (argument f, s)
unfolding read_arg_at strchr read_arg argument
read_arg_at_lem p f s t = elim (Option-cases (after (is_char b'=') f)) [
  | inl e ↦
      rw (scan-Text-none t (is_char b'=') e, c_string-Text t, e, before-none (is_char b'=') f e)
        refl
  | inr (v, e) ↦
      let n = length (before (is_char b'=') f) in
      let back : p + n - p ≡ n = omega arith in
      rw
        (
          scan-Text-some t (is_char b'=') v e,
          back,
          substring-Text t (is_char b'=') v e,
          c_string-Text (Text-after t (is_char b'=') v e),
          e,
        )
        refl
]

shorter :
    (test : ℕ → Bool) (s b : Bytes)
    → after test s ≡ some b
    → length (before test s) + suc (length b) ≡ length s
shorter test s b e =
    let (c, q) = after-splits test s b e in
    sym (length-append (before test s) (c ∷ b)) ∙ sym (ap length q)

-- Where the map of a state ends up.
abbrev pub with_args : Parsing → Bytes → List Bytes → Parsing
with_args s buff fs = record {
  buff = buff;
  request = record s.request { cgi_args_map = store_all fs s.request.cgi_args_map };
}

-- With fuel above the length of the text, the loop stores the arguments between the '&'s.
pub read_args_lem :
    (fuel p : ℕ) (f : Bytes) (s : Parsing)
    → Text s.buff p f
    → length f < fuel
    → (buff : Bytes) × (read_args fuel p s ≡ ok (tt, with_args s buff (split (is_char b'&') f)))
unfolding read_args strchr end_behind store_arg store_all
read_args_lem zero p f s t h = absurd (omega arith)
read_args_lem (suc fuel) p f s t h = elim (Option-cases (after (is_char b'&') f)) [
  | inl e ↦ (
    s.buff,
    rw
        (
          scan-Text-none t (is_char b'&') e,
          read_arg_at_lem p f s t,
          split_lem (is_char b'&') f,
          e,
          before-none (is_char b'&') f e,
        )
        refl,
  )
  | inr (b, e) ↦
      let n = p + length (before (is_char b'&') f) in
      let cut : Parsing = record s { buff = set s.buff n 0 } in
      let (buff, later) =
        read_args_lem fuel (suc n) b (with_args cut (set s.buff n 0) (before (is_char b'&') f ∷ []))
          (Text-behind t (is_char b'&') b e) (omega (arith, shorter (is_char b'&') f b e)) in
      (
        buff,
        rw
            (
              scan-Text-some t (is_char b'&') b e,
              put_nul-inside n s (found-inside t (is_char b'&') b e),
              read_arg_at_lem p (before (is_char b'&') f) cut (Text-before t (is_char b'&') b e),
              split_lem (is_char b'&') f,
              e,
            )
            later,
      )
]
