-- ===== src/Topology.antt =====
-- Which cards each service occupies and what its endpoint is: meshy/service/topology.py, with the
-- groups and cards of meshy/service/base.py.
pub mod Types
pub mod Place
pub mod Checks
pub mod Attach
pub mod Build
pub mod Lookups
pub mod Tests
