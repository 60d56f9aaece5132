-- ===== src/Colocation.antt =====
-- One GPU shared by the services of a ring: meshy/service/colocation.py.
pub mod Ring
pub mod Manager
pub mod Rows
pub mod Transfer
pub mod Exclusion
pub mod Tests
