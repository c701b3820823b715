-- ===== src/Tests/PointerWitnesses.antt =====
-- A scoped_ptr that is reset with the pointer that it has, with NULL and with another one; and two users
-- from the factory of examples/illustrations/factory.
use guicpp.Base.{ℕ, List, refl, ◌≡◌, [], ◌∷◌, some, none, reverse}
use guicpp.Outcome.{ok}
use guicpp.Scope.State.{member, Store, Event}
use guicpp.Annotations.{Annotated, empty_annotations}
use guicpp.Values.{pointer, user_object, factory_object}
use guicpp.Injector.{Injector}
use guicpp.FactoryUser.{get_factory, get_users}
use guicpp.FactoryUser.Users.{with_rtti, users, user_events, get_users_lem}
use guicpp.ScopedPtr.{lifetime, differs}
use guicpp.ScopedPtr.Owns.{owned, lifetime_lem}

lifetime_lem_example :
    lifetime (some 1) (some 1 ∷ none ∷ some 2 ∷ [])
    ≡ ok (reverse (owned (some 1) (some 1 ∷ none ∷ some 2 ∷ [])))
unfolding differs member
lifetime_lem_example = lifetime_lem (some 1) (some 1 ∷ none ∷ some 2 ∷ []) (refl, (refl, tt))

abbrev left : List Event → List Annotated → ℕ
left es xs = 0

get_users_lem_example :
    (i : Injector) × (get_factory (with_rtti left some)
      ≡ ok (i, pointer (factory_object empty_annotations 0)))
    × (t : Store) × (get_users
          (with_rtti left some)
          i.table
          (user_object 1 ∷ user_object 2 ∷ [])
          i.store
        ≡ ok (users 0 (user_object 1 ∷ user_object 2 ∷ []), t))
    × (t.events ≡ user_events 0 (user_object 1 ∷ user_object 2 ∷ []) [])
get_users_lem_example = get_users_lem left some (user_object 1 ∷ user_object 2 ∷ [])
