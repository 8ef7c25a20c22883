-- ===== src/Common.antt =====
-- redshow/include/common: the containers that the other parts use.
pub mod Map
