-- ===== src/ScopedPtr.antt =====
-- scoped_ptr of include/guicpp/internal/guicpp_port.h, which Injector keeps its bind table in and the
-- notifier of the examples its parts. A pointer is NULL or the number of an object made with `new`.
pub mod Owns
use guicpp.Base.{ℕ, List, [], ◌∷◌, Option, none, some, Bool, true, false, ◌==◌, if◌then◌else◌}
use guicpp.Outcome.{Outcome, ok, undefined, Action, pure, and_then, ◌>>=◌, ◌>>◌}
use guicpp.Scope.State.{member}

-- The pointer ptr_ and the objects that were deleted, newest first.
pub record ScopedPtr : Type 0 where
  pub ptr : Option ℕ
  pub deleted : List ℕ

-- `delete p`: nothing for NULL; an object that was deleted before is undefined behaviour.
unfoldable pub delete : Option ℕ → Action ScopedPtr (Unit {0})
unfolding member
delete none s = ok (tt, s)
delete (some n) s =
    if member n s.deleted then undefined else ok (tt, record s { deleted = n ∷ s.deleted })

-- p != ptr_
unfoldable pub differs : Option ℕ → Option ℕ → Bool
differs none none = false
differs (some m) (some n) = if m == n then false else true
differs _ _ = true

-- scoped_ptr::reset
unfoldable pub reset : Option ℕ → Action ScopedPtr (Unit {0})
unfolding delete differs
reset p s =
    if differs p s.ptr
    then and_then (delete s.ptr s) (λ r. ok (tt, record r.1 { ptr = p }))
    else ok (tt, s)

-- The calls of reset on one scoped_ptr, and then its destructor.
unfoldable pub use_up : List (Option ℕ) → Action ScopedPtr (Unit {0})
unfolding reset
use_up [] = reset none
use_up (p ∷ ps) = reset p >> use_up ps

-- The life of a scoped_ptr, from its constructor on: what it deletes, newest first.
unfoldable pub lifetime : Option ℕ → List (Option ℕ) → Outcome (List ℕ)
unfolding use_up
lifetime p ps = and_then (use_up ps (record { ptr = p; deleted = [] })) λ r. ok r.1.deleted
