-- ===== src/Store.antt =====
-- internal/datastore: object keys, the interface of an object store, and the local store.
pub mod Keys
pub mod PathClean
pub mod KeyLaws
pub mod Contract
pub mod Local
pub mod Memory
pub mod LocalReads
pub mod LocalPuts
pub mod LocalViews
pub mod LocalStore
mod Tests
