-- ===== src/Follower.antt =====
-- `class MantisFollower` of lerobot_robot_mantis/lerobot_robot_mantis/mantis_follower.py: the state,
-- the feed, the copy of the planner, the walk along a path, actions, homing and the connection.
mod State
mod Waiting
mod Polyline
mod Edge
mod Tiers
mod Agree
mod Rrt
mod Search
mod Same
mod Action
mod Approach
mod Homing
mod Retrying
mod Ending
mod Homeward
mod Connecting
mod Observing
mod Latching
mod Featured
mod Samples
mod Tests
