-- ===== src/Inject/Ids.antt =====
-- Which handler serves a request, and the ids of bindings: the selectors and the GetBindId methods of
-- include/guicpp/internal/guicpp_inject_util.h.
use guicpp.Base.{some, Bool, not, ◌&&◌, if◌then◌else◌}
use guicpp.CType.{CType, is_class_or_union, is_internal}
use guicpp.CType.Info.{type_specifier}
use guicpp.Annotations.{
  Annotations, label_type, inject_type, label, inject, Label, not_labelled, InjectType,
  normal_inject, assisted, Annotated, annotations, actual_type, get_at,
}
use guicpp.Entries.{TypeId, label_helper}
use guicpp.Outcome.{Outcome, ok, ill_formed, and_then}

pub data Handler : Type 0 where
  normal_handler missing_default_handler assisted_handler internal_handler : Handler

-- AtUtil::GetAt<Annotations, Label>::Type
unfoldable pub label_of : Annotations → Outcome Label
unfolding get_at
label_of xs = elim (get_at xs label_type (label not_labelled)) [
  | some (label l) ↦ ok l
  | _ ↦ ill_formed
]

-- AtUtil::GetAt<Annotations, InjectType, Default>::Type
unfoldable pub inject_type_of : InjectType → Annotations → Outcome InjectType
unfolding get_at
inject_type_of default xs = elim (get_at xs inject_type (inject default)) [
  | some (inject i) ↦ ok i
  | _ ↦ ill_formed
]

-- NormalInjectSelector, MissingDefaultTypeSelector, AssistedInjectSelector, InternalTypeInjectSelector,
-- of the type specifier.
unfoldable pub normal_selector : CType → Bool
unfolding is_class_or_union is_internal
normal_selector s = is_class_or_union s && not (is_internal s)

unfoldable pub missing_default_selector : CType → Bool
unfolding is_class_or_union
missing_default_selector s = not (is_class_or_union s)

unfoldable pub assisted_selector : CType → Bool
unfolding is_internal
assisted_selector s = not (is_internal s)

unfoldable pub internal_selector : CType → Bool
unfolding is_internal
internal_selector s = is_internal s

-- The overload of GuicppGetInjectHandler that takes true_type; without one the text is ill-formed.
unfoldable pub select_handler : InjectType → CType → Outcome Handler
unfolding normal_selector missing_default_selector assisted_selector internal_selector
select_handler normal_inject s =
    if normal_selector s
    then ok normal_handler
    else if missing_default_selector s
    then ok missing_default_handler
    else if internal_selector s
    then ok internal_handler
    else ill_formed
select_handler assisted s = if assisted_selector s then ok assisted_handler else ill_formed

unfoldable pub get_inject_handler : InjectType → CType → Outcome Handler
unfolding select_handler type_specifier
get_inject_handler i t = select_handler i (type_specifier t)

-- NormalInjectHandler::GetBindId(TypeKey<NormalInject>), which MissingDefaultTypeHandler passes on
unfoldable pub normal_id : Annotations → CType → Outcome TypeId
unfolding label_of type_specifier
normal_id xs t = and_then (label_of xs) λ l. ok (label_helper normal_inject l (type_specifier t))

-- AssistedInjectHandler::GetBindId(TypeKey<Assisted>)
unfoldable pub assisted_id : Annotations → CType → Outcome TypeId
unfolding label_of type_specifier
assisted_id xs t = and_then (label_of xs) λ l. ok (label_helper assisted l (type_specifier t))

-- The handler of InjectorUtil::GetActualType and InjectorUtil::GetBindId.
unfoldable pub handler_of : Annotations → CType → Outcome Handler
unfolding inject_type_of get_inject_handler
handler_of xs t = and_then (inject_type_of normal_inject xs) λ i. get_inject_handler i t

-- GetBindId(TypeKey<NormalInject>) of each handler: an assisted or internal type has no id in the
-- bind table.
unfoldable pub handler_id : Handler → Annotations → CType → Outcome TypeId
unfolding normal_id
handler_id normal_handler xs t = normal_id xs t
handler_id missing_default_handler xs t = normal_id xs t
handler_id assisted_handler xs t = ill_formed
handler_id internal_handler xs t = ill_formed

-- InjectorUtil::GetBindId
unfoldable pub get_bind_id : Annotations → CType → Outcome TypeId
unfolding handler_of handler_id
get_bind_id xs t = and_then (handler_of xs t) λ h. handler_id h xs t

-- InjectorUtil::GetFactoryArgsBindId: a factory's parameter is assisted unless it says otherwise.
unfoldable pub get_factory_args_bind_id : Annotated → Outcome TypeId
unfolding inject_type_of get_inject_handler assisted_id annotations actual_type
get_factory_args_bind_id x = and_then (inject_type_of assisted (annotations x)) λ i.
    and_then (get_inject_handler i (actual_type x)) λ h. elim h [
      | assisted_handler ↦ assisted_id (annotations x) (actual_type x)
      | _ ↦ ill_formed
    ]
