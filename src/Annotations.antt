-- ===== src/Annotations.antt =====
-- The annotation framework: Label, InjectType and Assisted of include/guicpp/guicpp_annotations.h, At
-- and Annotations of include/guicpp/guicpp_at.h, NotAnnotated and AtUtil of
-- include/guicpp/internal/guicpp_util.h. A type that the source computes while compiling is a value
-- here, and `none` stands for a text that does not compile.
pub mod Laws
use guicpp.Base.{ℕ, ℕ_discrete, Option, none, some, List, [], ◌∷◌, ◌++◌}
use guicpp.CType.{CType, remove_cv}

-- A label: NotLabelled, UnScoped (of guicpp_singleton.h) or a class that the user derives from Label.
pub data Label : Type 0 where
  not_labelled un_scoped : Label
  user_label : ℕ → Label

-- The classes derived from InjectType.
pub data InjectType : Type 0 where
  normal_inject assisted : InjectType

-- A template argument of At in front of the type.
pub data Annotation : Type 0 where
  label : Label → Annotation
  inject : InjectType → Annotation

-- An annotation base class.
pub data AnnotationType : Type 0 where
  label_type inject_type : AnnotationType

pub Label-discrete : Discrete Label
Label-discrete = hlevel ℕ_discrete

-- A::AnnotationType
unfoldable pub annotation_type : Annotation → AnnotationType
annotation_type (label l) = label_type
annotation_type (inject i) = inject_type

-- Annotations<A1, A2>; `none` is the default argument InvalidAt<I>.
pub record Annotations : Type 0 where
  pub a1 : Option Annotation
  pub a2 : Option Annotation

-- EmptyAnnotations
unfoldable pub empty_annotations : Annotations
empty_annotations = record { a1 = none; a2 = none }

-- What a template that takes an annotated type is given: T, At<A1, T> or At<A1, A2, T>.
pub data Annotated : Type 0 where
  not_annotated : CType → Annotated
  at : Annotation → CType → Annotated
  at2 : Annotation → Annotation → CType → Annotated

-- AtUtil::GetTypes<T>::ArgType
unfoldable pub arg_type : Annotated → CType
arg_type (not_annotated t) = t
arg_type (at a t) = t
arg_type (at2 a b t) = t

-- AtUtil::GetTypes<T>::ActualType
unfoldable pub actual_type : Annotated → CType
unfolding arg_type
actual_type x = remove_cv (arg_type x)

-- AtUtil::GetTypes<T>::Annotations
unfoldable pub annotations : Annotated → Annotations
unfolding empty_annotations
annotations (not_annotated t) = empty_annotations
annotations (at a t) = record { a1 = some a; a2 = none }
annotations (at2 a b t) = record { a1 = some a; a2 = some b }

-- The base class AtEntry<Lookup, A::AnnotationType, A> defines `type` where the two agree.
abbrev at_entry : AnnotationType → Annotation → List Annotation
at_entry label_type (label l) = label l ∷ []
at_entry inject_type (inject i) = inject i ∷ []
at_entry _ _ = []

abbrev at_entry_of : AnnotationType → Option Annotation → List Annotation
at_entry_of lookup none = []
at_entry_of lookup (some a) = at_entry lookup a

-- Annotations<A1, A2>::Entries<Lookup>: the `type`s that its bases define.
unfoldable pub entries : AnnotationType → Annotations → List Annotation
entries lookup xs = at_entry_of lookup xs.a1 ++ at_entry_of lookup xs.a2

-- AtUtil::GetAt<Annotations, Lookup, DefaultValue>::Type. Two annotations of the base class that is
-- looked up make AtEntryBase<Lookup> an ambiguous base, and the text is ill-formed.
unfoldable pub get_at : Annotations → AnnotationType → Annotation → Option Annotation
get_at xs lookup default = pick (entries lookup xs)
  where
    pick : List Annotation → Option Annotation
    pick [] = some default
    pick (a ∷ []) = some a
    pick (a ∷ b ∷ r) = none
