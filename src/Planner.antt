-- ===== src/Planner.antt =====
-- Dynamic batching: meshy/backend/titan/plan.py.
pub mod Tests
pub mod Types
pub mod Snake
pub mod Pack
pub mod Build
pub mod Align
pub mod Samples
