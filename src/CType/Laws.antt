-- ===== src/CType/Laws.antt =====
-- `is_same` decides equality of types.
use guicpp.Base.{◌≡◌, true, ◌==◌, arith}
use guicpp.CType.{CType, named, ptr, ref, Quals, TypeName, quals_code, same_name, is_same}

quals_code_injective : (q r : Quals) → (quals_code q == quals_code r) ≡ true → q ≡ r
quals_code_injective q r h = ground arith

same_name-eq : (m n : TypeName) → same_name m n ≡ true → m ≡ n
same_name-eq m n h = ground arith

pub same_name_refl : (n : TypeName) → same_name n n ≡ true
same_name_refl n = ground arith

pub is_same_refl : (t : CType) → is_same t t ≡ true
unfolding is_same
is_same_refl (named q n) = ground (arith, same_name_refl n)
is_same_refl (ptr q t) = ground (arith, is_same_refl t)
is_same_refl (ref t) = is_same_refl t

pub is_same-eq : (t u : CType) → is_same t u ≡ true → t ≡ u
unfolding is_same
is_same-eq (named q m) (named r n) h = ground (arith, quals_code_injective q r, same_name-eq m n)
is_same-eq (ptr q t) (ptr r u) h = ground (arith, quals_code_injective q r, is_same-eq t u)
is_same-eq (ref t) (ref u) h = ground (arith, is_same-eq t u)
is_same-eq _ _ h = cc
