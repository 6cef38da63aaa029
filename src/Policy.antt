-- ===== src/Policy.antt =====
-- policy/dummy_policy_server.py: the table of actions, and the server that answers from it.
mod Table
mod Steady
mod Columns
mod Server
mod Serving
mod Tests
