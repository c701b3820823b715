-- ===== src/CType.antt =====
-- C++ types as data, in normal form, and the type traits of include/guicpp/internal/guicpp_port.h
-- (is_pointer, remove_pointer, is_reference, remove_reference, remove_cv, is_same,
-- is_class_or_union, is_convertible to InternalType*).
pub mod Info
pub mod Laws
use guicpp.Base.{ℕ, ℕ_discrete, Bool, true, false, ◌&&◌, ◌==◌}

-- cv-qualifiers at the top of an object type.
pub data Quals : Type 0 where
  plain const volatile const_volatile : Quals

-- What a type is built from. `primitive` is any type that is neither a class nor a union; `injector`
-- is guicpp::Injector; a factory or provider is a class derived from FactoryBase or ProviderBase;
-- `scope_setup_context` is internal::ScopeSetupContext.
pub data TypeName : Type 0 where
  primitive user_class factory provider : ℕ → TypeName
  injector scope_setup_context : TypeName

-- `X`, `X*` and `X&`: a reference has no qualifiers of its own.
pub data CType : Type 0 where
  named : Quals → TypeName → CType
  ptr : Quals → CType → CType
  ref : CType → CType

unfoldable pub CType-discrete : Discrete CType
CType-discrete = hlevel ℕ_discrete

abbrev quals_code : Quals → ℕ
quals_code plain = 0
quals_code const = 1
quals_code volatile = 2
quals_code const_volatile = 3

abbrev same_name : TypeName → TypeName → Bool
same_name (primitive m) (primitive n) = m == n
same_name (user_class m) (user_class n) = m == n
same_name (factory m) (factory n) = m == n
same_name (provider m) (provider n) = m == n
same_name injector injector = true
same_name scope_setup_context scope_setup_context = true
same_name _ _ = false

-- is_same
unfoldable pub is_same : CType → CType → Bool
is_same (named q m) (named r n) = (quals_code q == quals_code r) && same_name m n
is_same (ptr q t) (ptr r u) = (quals_code q == quals_code r) && is_same t u
is_same (ref t) (ref u) = is_same t u
is_same _ _ = false

-- is_pointer
unfoldable pub is_pointer : CType → Bool
is_pointer (ptr q t) = true
is_pointer _ = false

-- remove_pointer: T*, T* const, T* volatile and T* const volatile.
unfoldable pub remove_pointer : CType → CType
remove_pointer (ptr q t) = t
remove_pointer t = t

-- is_reference
unfoldable pub is_reference : CType → Bool
is_reference (ref t) = true
is_reference _ = false

-- remove_reference
unfoldable pub remove_reference : CType → CType
remove_reference (ref t) = t
remove_reference t = t

-- The qualifiers that remove_const and remove_volatile leave.
abbrev drop_const : Quals → Quals
drop_const const = plain
drop_const const_volatile = volatile
drop_const q = q

abbrev drop_volatile : Quals → Quals
drop_volatile volatile = plain
drop_volatile const_volatile = const
drop_volatile q = q

unfoldable pub remove_const : CType → CType
remove_const (named q n) = named (drop_const q) n
remove_const (ptr q t) = ptr (drop_const q) t
remove_const (ref t) = ref t

unfoldable pub remove_volatile : CType → CType
remove_volatile (named q n) = named (drop_volatile q) n
remove_volatile (ptr q t) = ptr (drop_volatile q) t
remove_volatile (ref t) = ref t

-- remove_cv
unfoldable pub remove_cv : CType → CType
unfolding remove_const remove_volatile
remove_cv t = remove_const (remove_volatile t)

-- `const T`: a qualifier on a reference is ignored.
abbrev with_const : Quals → Quals
with_const plain = const
with_const volatile = const_volatile
with_const q = q

unfoldable pub add_const : CType → CType
add_const (named q n) = named (with_const q) n
add_const (ptr q t) = ptr (with_const q) t
add_const (ref t) = ref t

-- is_class_or_union
unfoldable pub is_class_or_union : CType → Bool
is_class_or_union (named q (primitive n)) = false
is_class_or_union (named q n) = true
is_class_or_union _ = false

-- is_convertible<T*, InternalType*>: InternalType is a base of Injector, FactoryBase and
-- ProviderBase, and a pointer to a qualified T does not convert to InternalType*.
unfoldable pub is_internal : CType → Bool
is_internal (named plain injector) = true
is_internal (named plain (factory n)) = true
is_internal (named plain (provider n)) = true
is_internal _ = false
