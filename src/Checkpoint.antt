-- ===== src/Checkpoint.antt =====
-- Global checkpoints: meshy/service/checkpoint.py and the policy of meshy/config.py.
pub mod Tests
pub mod Policy
pub mod Disk
pub mod Store
pub mod Resume
