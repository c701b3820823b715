-- ===== src/CString.antt =====
-- The C string functions that examples/notifier calls (strpbrk, strchr, strstr, and the std::string
-- constructors and assignments from a `char*`), on an array of bytes and a position in it. A read
-- behind the array is undefined.
pub mod Cut
pub mod Text
pub mod Needle
pub mod Fails
pub mod Split
pub mod Nul
pub mod StringMap
use Prim.Native.Char.{code}
use Prim.Native.String.{String}
use guicpp.Base.{
  ℕ, zero, suc, ◌+◌, List, [], ◌∷◌, Bool, true, false, ◌&&◌, ◌||◌, Option, none, some, ◌==◌,
  if◌then◌else◌,
}
use guicpp.Outcome.{Outcome, ok, undefined, and_then}

abbrev pub Bytes : Type 0
Bytes = List ℕ

-- The bytes of an ASCII literal.
abbrev pub codes : String → Bytes
codes String.[] = []
codes (String.◌∷◌ c s) = code c ∷ codes s

abbrev pub drop {ℓ} : {A : Type ℓ} → ℕ → List A → List A
drop zero xs = xs
drop (suc n) [] = []
drop (suc n) (x ∷ xs) = drop n xs

abbrev pub take {ℓ} : {A : Type ℓ} → ℕ → List A → List A
take zero xs = []
take (suc n) [] = []
take (suc n) (x ∷ xs) = x ∷ take n xs

-- The position of the first byte before the NUL that passes a test.
unfoldable pub scan : (ℕ → Bool) → Bytes → ℕ → Outcome (Option ℕ)
scan test [] p = undefined
scan test (c ∷ cs) p =
    let rest = scan test cs (suc p) in
    if c == 0 then ok none else if test c then ok (some p) else rest

abbrev pub is_char : ℕ → ℕ → Bool
is_char c d = d == c

abbrev pub is_one_of : Bytes → ℕ → Bool
is_one_of [] c = false
is_one_of (d ∷ ds) c = (c == d) || is_one_of ds c

-- strchr, strpbrk
unfoldable pub strchr : Bytes → ℕ → ℕ → Outcome (Option ℕ)
unfolding scan
strchr buff p c = scan (is_char c) (drop p buff) p

unfoldable pub strpbrk : Bytes → ℕ → Bytes → Outcome (Option ℕ)
unfolding scan
strpbrk buff p accept = scan (is_one_of accept) (drop p buff) p

abbrev pub starts_with : Bytes → Bytes → Bool
starts_with [] cs = true
starts_with (d ∷ ds) [] = false
starts_with (d ∷ ds) (c ∷ cs) = (c == d) && starts_with ds cs

unfoldable pub scan_for : Bytes → Bytes → ℕ → Outcome (Option ℕ)
scan_for needle [] p = undefined
scan_for needle (c ∷ cs) p =
    let rest = scan_for needle cs (suc p) in
    if c == 0 then ok none else if starts_with needle (c ∷ cs) then ok (some p) else rest

-- strstr, for a needle that is not empty
unfoldable pub strstr : Bytes → ℕ → Bytes → Outcome (Option ℕ)
unfolding scan_for
strstr buff p needle = scan_for needle (drop p buff) p

unfoldable pub up_to_nul : Bytes → Outcome Bytes
up_to_nul [] = undefined
up_to_nul (c ∷ cs) =
    let rest = up_to_nul cs in if c == 0 then ok [] else and_then rest (λ s. ok (c ∷ s))

-- std::string::assign(const char*)
unfoldable pub c_string : Bytes → ℕ → Outcome Bytes
unfolding up_to_nul
c_string buff p = up_to_nul (drop p buff)

-- std::string::assign(const char*, size_t), the array being long enough
abbrev pub substring : Bytes → ℕ → ℕ → Bytes
substring buff p n = take n (drop p buff)
