-- ===== src/HomePlanner.antt =====
-- `class HomePlanner` of home_planner.py: the object, its collision queries, the tiers of the search
-- and the search itself.
mod Edge
mod Tiers
mod Rrt
mod Search
mod Certified
mod Tiered
mod Polyline
mod Branches
mod Chains
mod Growing
mod Smoothing
mod Safety
mod Behaviour
mod Tests
unfoldable pub use Edge.*
unfoldable pub use Tiers.*
unfoldable pub use Rrt.*
unfoldable pub use Search.*
pub use Certified.*
pub use Safety.*
