-- ===== src/Core.antt =====
-- src/libs/core: the containers that the rest of the program uses.
pub mod StrMap
