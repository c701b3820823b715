-- ===== src/Injector/Owned.antt =====
-- What the bind table of an injector will delete: the destructor of BindTable
-- (src/guicpp_table.cc) behind CreateInjector (src/guicpp_tools.cc).
use mathlib.Core.List.{append-nil}
use guicpp.Base.{◌≡◌, sym, ap, ◌∙◌, List, [], ◌∷◌, ◌++◌, Bool, length}
use guicpp.Values.{invoke_cleanup}
use guicpp.Entries.{Entry, cleanup_entry}
use guicpp.Outcome.{ok}
use guicpp.Table
use guicpp.Table.{deletions}
use guicpp.Binder.{Module}
use guicpp.Binder.Keeps.{lazies}
use guicpp.Binder.Registers.{downto, lazies-append}
use guicpp.Injector.{Injector, create_injector}
use guicpp.Injector.Ownership.{context_entry}
use guicpp.Injector.SetUp.{create_injector-lazies}

-- The module's own entries own all the lazy singletons' providers.
pub owned-lazies :
    (rtti : Bool) (m : Module) (i : Injector)
    → create_injector rtti m ≡ ok i
    → (owned : List Entry)
    → deletions i.table ≡ cleanup_entry invoke_cleanup ∷ (owned ++ context_entry ∷ [])
    → lazies owned ≡ downto (length i.store.providers)
unfolding lazies
owned-lazies rtti m i created owned e =
    sym (append-nil (lazies owned))
    ∙ (sym (lazies-append owned (context_entry ∷ []))
        ∙ (ap lazies (sym e) ∙ create_injector-lazies rtti m i created))
