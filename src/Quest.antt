-- ===== src/Quest.antt =====
-- quest_pub.py, the publisher of the Quest's controller, and the message of buttons that
-- teleop_mantis.py reads.
mod Publisher
mod Latch
mod Tests
