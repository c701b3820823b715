-- ===== src/Lib.antt =====
-- guicpp, a dependency injection library for C++, as a model in which a C++ type is a value.
--
-- The user's modules make bindings through a Binder, which fills a BindTable. An Injector owns the
-- table. A request, a type T or At<..., T>, is given to InjectorUtil, which picks one of four
-- handlers by the annotations and the type; the handler finds an entry in the bind table, in the
-- LocalContext of a factory call or by the class's inject macro; a TableEntryReader<T> checks that the
-- entry's type converts to T and calls the entry's Get, which makes further requests for the
-- arguments of a constructor or a provider. Lazy singletons are providers that keep their object and
-- are initialised and cleaned up by a ScopeSetupContext, which CreateInjector binds.
--
-- The files and the code:
--   Base          names and helpers that all share: Boolean tests, lists over native numbers.
--   CType         types and type traits (include/guicpp/internal/guicpp_port.h); CType/Info is TypeInfo
--                 and TypesCategory (include/guicpp/internal/guicpp_types.h).
--   Annotations   Label, InjectType, Assisted (include/guicpp/guicpp_annotations.h), At, Annotations
--                 (include/guicpp/guicpp_at.h), AtUtil, NotAnnotated
--                 (include/guicpp/internal/guicpp_util.h).
--   Outcome       how a call ends: a value; GUICPP_LOG_(FATAL) or a failed GUICPP_CHECK_
--                 (include/guicpp/internal/guicpp_port.h); undefined behaviour; a text that does not
--                 compile; a recursion deeper than the fuel.
--   Values        pointers, values, providers and cleanup actions.
--   Entries       the classes derived from TableEntryBase (include/guicpp/internal/guicpp_entries.h,
--                 guicpp_builder.h, guicpp_local_context.h, guicpp_table.h) and TypeIdProvider.
--   Table         BindTable (include/guicpp/internal/guicpp_table.h, src/guicpp_table.cc).
--   LocalContext  LocalContext (include/guicpp/internal/guicpp_local_context.h,
--                 src/guicpp_local_context.cc).
--   Reader        TableEntryReader (include/guicpp/internal/guicpp_table.h).
--   Scope         ScopeSetupContext, LazySingletonProvider (include/guicpp/guicpp_singleton.h,
--                 src/guicpp_singleton.cc), Mutex, GoogleOnceDynamic
--                 (include/guicpp/internal/guicpp_port.h); Scope/State is the store of all objects.
--   Inject        InjectorUtil and its handlers (include/guicpp/internal/guicpp_inject_util.h),
--                 CreateHelpers (guicpp_create_helpers.h), ProviderGet (guicpp_provider_helpers.h),
--                 AbstractProvider (include/guicpp/guicpp_provider.h), the inject macros
--                 (include/guicpp/guicpp_macros.h); Inject/Ids the ids and selectors; Inject/Run the
--                 recursion, Injector::Get and RealFactory::Get (guicpp_factory_helpers.h).
--   Binder        Binder (include/guicpp/guicpp_binder.h, src/guicpp_binder.cc), Module
--                 (include/guicpp/guicpp_module.h), LazySingleton::ConfigureScope.
--   Injector      Injector (include/guicpp/guicpp_injector.h, src/guicpp_injector.cc), CreateInjector,
--                 WrapperModule, InvokeCleanup (src/guicpp_tools.cc), the entries' destructors.
--   CString       the C string functions and std::map that the example server uses: CString/Text is a
--                 NUL-terminated text in an array, CString/StringMap the map.
--   HttpServer    HttpRequest and ReadHttpRequest, HttpServer/Server is SimpleHttpServer
--                 (examples/notifier/http_server/implementation/server.cc, public/server.h).
--   ContactList   ContactList and the std::istream it reads
--                 (examples/notifier/contact_list/contact_list.cc).
--   Notifier      NotifyRequestHandler, NotifyRequestDispatcher, Logger
--                 (examples/notifier/notifier_frontend/nfe_request_handler.cc, nfe_server.cc),
--                 SmsNotifier, EmailNotifier (examples/notifier/messengers/notifiers.cc);
--                 Notifier/Wiring is NotifyServerModule (nfe_module.cc) with the inject macros.
--   ScopedPtr     scoped_ptr (include/guicpp/internal/guicpp_port.h).
--   FactoryUser   the classes and the main of examples/illustrations/factory.
-- Below these, the modules named for what they prove: Table/History, LocalContext/Laws, Reader/Laws,
-- Scope/Once and Scope/Cleanup, Inject/Ends, Inject/Bound, Inject/Unbound,
-- Inject/Singleton, Inject/SetUp, Scope/Bounds, Scope/Init, Scope/Empties, Scope/Deletions,
-- Binder/Extends, Binder/Covered, Binder/Errors, Injector/Ownership, Injector/Owned,
-- Injector/Lifecycle, Notifier/Requests. Inject/Order is the order in which arguments are evaluated.
-- Outcome/Keeps, Scope/Keeps and Inject/Keeps carry a preorder on states through every action,
-- Outcome/Holds and Inject/Stays a condition on the state together with what may not happen;
-- Binder/Keeps carries a preorder through every call
-- of a module, and Binder/Registers, Binder/Owns, Binder/Bindings and Binder/Recorded are what it is used with.
-- Scope/SetUp is the scope's invariant between requests, with Scope/Account, what the cleanup list
-- says of the providers; Injector/SetUp is where it begins, Injector/Gets how requests keep it and
-- Injector/Deletes where it ends, with Injector/Ended, what the entries end. HttpServer/Syntax and
-- ContactList/Syntax say what a text means, without positions, buffers and streams; HttpServer/Reads,
-- HttpServer/Serves and ContactList/Loads compare the code with that.
--   Tests         a sample program and the theorems at concrete inputs.
--
-- What C++ computes while compiling is computed here by functions on types; a text that does not
-- compile is the outcome `ill_formed`. What the user writes is a parameter: the macros of the classes,
-- what providers take and return, the parameters of factories, and a module as the list of its
-- binder calls (Inject/Parameters, Binder). So is what C++ leaves to the compiler: RTTI, the order in
-- which the arguments of each call are evaluated, and what a function without a return statement returns.
--
-- Memory is a store (Scope/State) with the singletons' providers, the ScopeSetupContext and a list of
-- events: objects constructed, providers called, deletions, cleanup functions. Access through a null
-- or dangling pointer, a second `delete` of an object and reads and writes outside an array are
-- `undefined`. What the user's code deletes is not in the store: a pointer of the user's is taken to be
-- good until the library deletes it. A provider of the user's is never NULL. Two RealFactories made for
-- the same request are one pointer.
--
-- The recursion of GetActualType runs on fuel, one unit for each nested request; the fuel that is
-- enough is a rank that falls along dependencies. Bindings in a circle never end, in the
-- source too.
--
-- The example server reads and writes a buffer of bytes at positions; reads and writes outside it are
-- `undefined`. What accept, read, write, socket and bind do is a parameter. Its loops run on fuel, the
-- length of the buffer and of the file, which is shown to be enough.
--
-- Not modelled: several threads, the texts of log messages, compile-time assertions, the
-- other illustrations among the examples, and the tests. A constructor of the user's is an event and
-- does not call the injector itself.
pub mod Base
pub mod CString
pub mod HttpServer
pub mod ContactList
pub mod Notifier
pub mod ScopedPtr
pub mod FactoryUser
pub mod CType
pub mod Annotations
pub mod Outcome
pub mod Values
pub mod Entries
pub mod Table
pub mod LocalContext
pub mod Reader
pub mod Scope
pub mod Inject
pub mod Binder
pub mod Injector
pub mod Tests
