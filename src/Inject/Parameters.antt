-- ===== src/Inject/Parameters.antt =====
-- What the library does not fix: the program of its user, and the compiler.
use guicpp.Base.{ℕ, List, Bool, Option}
use guicpp.CType.{CType, TypeName}
use guicpp.Annotations.{Annotated}
use guicpp.Values.{Value}
use guicpp.Scope.State.{Event}

-- The inject macro that was used for a class (include/guicpp/guicpp_macros.h): GUICPP_INJECT_CTOR,
-- GUICPP_INJECT_INLINE_CTOR and GUICPP_TEMPLATE_INJECT_CTOR with the constructor's arguments,
-- GUICPP_INJECTABLE and GUICPP_TEMPLATE_INJECTABLE, or none.
pub data DefaultEntry : Type 0 where
  not_injectable : DefaultEntry
  inject_ctor : List Annotated → DefaultEntry
  injectable : DefaultEntry

-- The user's program: the macros, the argument types of each provider's Get and what the Get returns
-- (from its arguments and from all that happened), and the return type and parameters of each
-- factory's Get.
pub record Program : Type 0 where
  pub default_entry : TypeName → DefaultEntry
  pub provider_args : ℕ → List Annotated
  pub provider_get : ℕ → List Value → List Event → Value
  pub factory_return : ℕ → CType
  pub factory_args : ℕ → List Annotated

-- What C++ leaves to the compiler: GUICPP_HAS_RTTI; the order in which the arguments of each call are
-- evaluated, given as the number of the later arguments that are evaluated before the first, for what
-- happened before the call and for every rest of its arguments; and what the caller sees if a function ends without a return statement after a call
-- that returned a value (`none` is undefined behaviour).
pub record Compiler : Type 0 where
  pub rtti : Bool
  pub earlier : List Event → List Annotated → ℕ
  pub flow_off_end : Value → Option Value
