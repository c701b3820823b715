-- ===== src/Inject/SharedIds.antt =====
-- Requests that share an id of the bind table: InjectorUtil::GetBindId of
-- include/guicpp/internal/guicpp_inject_util.h.
use guicpp.Base.{◌≡◌, ◌↔◌, ◌⊎◌, refl, ap, ◌∙◌, inl, inr, arith}
use guicpp.CType.{CType}
use guicpp.CType.Info.{type_specifier}
use guicpp.Annotations.{Annotations, Label, InjectType, normal_inject, assisted}
use guicpp.Entries.{TypeId, label_helper}
use guicpp.Outcome.{ok}
use guicpp.Outcome.Laws.{and_then-eq-ok}
use guicpp.Inject.Ids.{
  Handler, normal_handler, missing_default_handler, handler_of, normal_id, get_bind_id, label_of,
  handler_id, inject_type_of, get_inject_handler, select_handler,
}
use guicpp.Inject.Bound.{get_bind_id_cases}

pub normal_id-eq-ok :
    (xs : Annotations) (t : CType) (tid : TypeId)
    → normal_id xs t ≡ ok tid
    → (l : Label) × (label_of xs ≡ ok l) × (label_helper normal_inject l (type_specifier t) ≡ tid)
unfolding normal_id
normal_id-eq-ok xs t tid h =
    let (l, found, e) =
      and_then-eq-ok (label_of xs) (λ l. ok (label_helper normal_inject l (type_specifier t)))
        {b = tid} h in
    (l, found, cc)

-- A request has an id in the bind table only with NormalInject.
normal_of_bound :
    (xs : Annotations) (t : CType) (d : Handler)
    → handler_of xs t ≡ ok d
    → (d ≡ normal_handler) ⊎ (d ≡ missing_default_handler)
    → inject_type_of normal_inject xs ≡ ok normal_inject
normal_of_bound xs t d h which =
    let (i, found, chosen) =
      and_then-eq-ok (inject_type_of normal_inject xs) (λ i. get_inject_handler i t) {b = d}
        (unfold handler_of in h) in
    found ∙ ap ok (pick i chosen)
  where
    pick : (i : InjectType) → get_inject_handler i t ≡ ok d → i ≡ normal_inject
    pick normal_inject chosen = refl
    pick assisted chosen = absurd (unfold get_inject_handler select_handler in ground arith)

same_handler :
    (xs ys : Annotations) (t u : CType) (d : Handler)
    → inject_type_of normal_inject xs ≡ ok normal_inject
    → inject_type_of normal_inject ys ≡ ok normal_inject
    → type_specifier u ≡ type_specifier t
    → handler_of xs t ≡ ok d
    → handler_of ys u ≡ ok d
unfolding handler_of get_inject_handler
same_handler xs ys t u d m n s chosen = rw (n, s) (rw m at chosen)

get_bind_id_of :
    (ys : Annotations) (u : CType) (tid : TypeId) (d : Handler)
    → handler_of ys u ≡ ok d
    → normal_id ys u ≡ ok tid
    → (d ≡ normal_handler) ⊎ (d ≡ missing_default_handler)
    → get_bind_id ys u ≡ ok tid
unfolding get_bind_id handler_id
get_bind_id_of ys u tid d o id (inl n) = rw (o, n) id
get_bind_id_of ys u tid d o id (inr n) = rw (o, n) id

-- Given that one request has an id in the bind table, another has the same id exactly when the two
-- have the same label and the same type specifier, and the other is not Assisted.
pub get_bind_id_iff :
    (xs ys : Annotations) (t u : CType) (tid : TypeId)
    → get_bind_id xs t ≡ ok tid
    → (get_bind_id ys u ≡ ok tid) ↔ (
        (label_of ys ≡ label_of xs)
        × (type_specifier u ≡ type_specifier t)
        × (inject_type_of normal_inject ys ≡ ok normal_inject))
get_bind_id_iff xs ys t u tid h = (forward, backward)
  where
    forward :
        get_bind_id ys u ≡ ok tid
        → (label_of ys ≡ label_of xs)
          × (type_specifier u ≡ type_specifier t)
          × (inject_type_of normal_inject ys ≡ ok normal_inject)
    forward q =
        let (d, chosen, i, which) = get_bind_id_cases xs t tid h in
        let (d', chosen', i', which') = get_bind_id_cases ys u tid q in
        let (l, found, e) = normal_id-eq-ok xs t tid i in
        let (l', found', e') = normal_id-eq-ok ys u tid i' in
        (cc, cc, normal_of_bound ys u d' chosen' which')

    backward :
        (label_of ys ≡ label_of xs)
          × (type_specifier u ≡ type_specifier t)
          × (inject_type_of normal_inject ys ≡ ok normal_inject)
        → get_bind_id ys u ≡ ok tid
    backward (l, s, n) =
        let (d, chosen, i, which) = get_bind_id_cases xs t tid h in
        let plain_request = normal_of_bound xs t d chosen which in
        let id : normal_id ys u ≡ ok tid = unfold normal_id in rw (l, s) (unfold normal_id in i) in
        let other : handler_of ys u ≡ ok d = same_handler xs ys t u d plain_request n s chosen in
        get_bind_id_of ys u tid d other id which
