-- ===== src/Redshow.antt =====
-- redshow/src/redshow.cpp: the library that the tools call, by the state that the calls share.
pub mod Registry
pub mod Symbols
pub mod Access
pub mod Trace
pub mod Cubins
pub mod Analyze
pub mod Config
