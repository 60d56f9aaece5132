-- ===== src/Critic.antt =====
-- The critic: the rows it trains on, of meshy/backend/titan/critic/data.py, and its worker, of
-- meshy/worker/critic.py.
pub mod Data
pub mod Split
pub mod Windows
pub mod Steps
pub mod Tests
