-- ===== src/Tests.antt =====
-- A small program for the tests and witnesses, and what the injector does with it.
pub mod Sample
pub mod Witnesses
pub mod InjectorWitnesses
pub mod SingletonWitnesses
pub mod RequestWitnesses
pub mod BinderWitnesses
pub mod ServerWitnesses
pub mod ScopeWitnesses
pub mod LifecycleWitnesses
pub mod PointerWitnesses
