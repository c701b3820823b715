-- ===== src/Reader/Keeps.antt =====
-- The reader does nothing to the state but what the entry's Get does.
use guicpp.Base.{Option, none, some, Bool, same, if◌then◌else◌}
use guicpp.CType.{CType, is_same}
use guicpp.CType.Info.{type_specifier}
use guicpp.Values.{Value}
use guicpp.Entries.{Entry, bound_type, get_bind_type, invalid_bind, BindType-discrete}
use guicpp.Outcome.{Action, ◌>>=◌, lift, fail, check, missing_binding, undefined, check_failed, ok}
use guicpp.Outcome.Keeps.{Keeps, IsPreorder, Keeps->>=, Keeps-lift, Keeps-check, Keeps-if}
use guicpp.Reader.{get_bound_type, read_cast, read_as, read, convert}

module _ {S : Type 0} {R : S → S → Type 0} (preorder : IsPreorder R) (rtti : Bool)
    (f : Entry → Action S Value) (e : Entry) (h : Keeps R (f e)) where
  cast-Keeps : (t : CType) (o : Option CType) → Keeps R (read_cast rtti f o t e)
  unfolding read_cast get_bound_type
  cast-Keeps t none = λ s. tt
  cast-Keeps t (some b) =
      Keeps->>= preorder (get_bound_type rtti f b e) (λ v s. ok (convert t v, s))
        (Keeps->>= preorder (lift (bound_type e))
          (λ u. if is_same u b then f e else if rtti then fail check_failed else lift undefined)
          (Keeps-lift preorder (bound_type e))
          λ u.
            Keeps-if R (is_same u b) (f e) (if rtti then fail check_failed else lift undefined) h
              (Keeps-if R rtti (fail check_failed) (lift undefined) (λ s. tt) (λ s. tt)))
        λ v. preorder.reflexive

  -- The reader moves the store along R if the entry's Get does.
  pub read-Keeps : (t : CType) → Keeps R (read rtti f t e)
  unfolding read read_as
  read-Keeps t =
      Keeps-if R (same BindType-discrete (get_bind_type e) invalid_bind) (fail missing_binding)
        (lift (bound_type e) >>= λ b. read_as rtti f t b e) (λ s. tt)
        (Keeps->>= preorder (lift (bound_type e)) (λ b. read_as rtti f t b e)
          (Keeps-lift preorder (bound_type e))
          λ b.
            Keeps->>= preorder (check (is_same (type_specifier t) (type_specifier b))) _
              (Keeps-check preorder (is_same (type_specifier t) (type_specifier b)))
              λ _. cast-Keeps t _)
