-- ===== src/CType/Info/Laws.antt =====
-- What TypeInfo says of a type, and what it forgets.
use guicpp.Base.{◌≡◌, Bool, true, false, arith}
use guicpp.CType.{CType, named, ptr, ref, plain, const, const_volatile, is_same, add_const}
use guicpp.CType.Laws.{is_same_refl, same_name_refl}
use guicpp.CType.Info.{referred_type, is_const}

-- Whether a type has `const` at its top; a reference has none of its own.
abbrev pub has_const : CType → Bool
has_const (named const n) = true
has_const (named const_volatile n) = true
has_const (ptr const t) = true
has_const (ptr const_volatile t) = true
has_const (ref t) = true
has_const _ = false

-- The constness that TypeInfo finds by comparing two pointer types is the const qualifier of the
-- type that a pointer or reference refers to, or of the type itself.
pub is_const-has_const : (t : CType) → is_const t ≡ has_const (referred_type t)
unfolding is_const is_same add_const
is_const-has_const t = go (referred_type t)
  where
    go : (r : CType) → is_same (ptr plain r) (ptr plain (add_const r)) ≡ has_const r
    go (named q n) = ground (arith, same_name_refl n)
    go (ptr q t) = ground (arith, is_same_refl t)
    go (ref t) = is_same_refl t
