-- ===== src/Worker.antt =====
-- The loop of a TransferQueue worker: meshy/worker/tq.py.
pub mod Types
pub mod Batch
pub mod Tests
