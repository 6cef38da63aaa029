-- ===== src/Recorder.antt =====
-- `class EpisodeRecorder` of lerobot_recorder.py: decoding images, pairing cameras, episodes.
pub mod Image
mod Pixels
pub mod Sizes
pub mod Episode
pub mod Camera
pub mod Session
mod Pairing
mod Consistent
mod Starting
mod Stopping
mod Runs
mod Failing
pub mod Counting
mod Tests
