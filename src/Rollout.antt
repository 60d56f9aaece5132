-- ===== src/Rollout.antt =====
-- The rollout's pacing by generation gates: meshy/worker/rollout.py.
pub mod Pacing
pub mod Tests
