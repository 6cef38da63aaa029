-- ===== src/Teleop.antt =====
-- `class Bridge` of teleop_mantis.py: the gripper, the buttons and the move to home;
-- and `class CommandShaper`.
mod Gripper
mod Settled
mod Settling
mod Home
mod Buttons
mod Exclusive
mod Apart
mod Recording
mod Shaper
mod Limited
pub mod Command
mod Joints
mod Ready
mod Commanding
mod Samples
mod Ramp
mod Route
mod Tracking
mod Target
mod Following
mod Tracked
mod TrackingTests
mod JointTests
mod Tests
