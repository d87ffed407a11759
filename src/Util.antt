-- ===== src/Util.antt =====
-- include/util and source/util: results, scope guards and the singleton.
pub mod Result
pub mod OnScopeExit
pub mod Singleton
pub mod Tests
