-- ===== src/Lib.antt =====
-- A verification library for vla-mantis: VR teleoperation of a two-arm robot, the recording of
-- demonstrations, and the move to the home pose.
--
-- Parts and how they interact
--   The publisher of the headset (quest_pub.py) sends controller poses and button states.
--   The teleop node (class Bridge, teleop_mantis.py) turns controller poses and buttons into arm
--   commands. The home button asks its planner (class HomePlanner, home_planner.py) for a way to the
--   home pose and walks it, one command per tick, with a safety gate on the measured pose. Its gripper
--   loop sends goals to an action server. The menu button starts and stops the episode recorder
--   (class EpisodeRecorder, lerobot_recorder.py), which pairs the images of the cameras, samples the
--   node's joints and commands into frames, and saves episodes on a worker thread.
--   A recorded episode or a policy drives the arm through class MantisFollower
--   (lerobot_robot_mantis/lerobot_robot_mantis/mantis_follower.py): it latches the joints that it does
--   not drive, feeds the interpolated command to the teleop's shaper, decodes images with the
--   recorder's _to_rgb, and brings the arm home with its own copy of the planner. The dummy policy
--   server (policy/dummy_policy_server.py) answers its observations from a table.
--
-- Files
--   Base            Names passed on from the libraries, Boolean tests, lists over the native numbers.
--     Num           Floats as an interface: a total order without NaN, and no law of arithmetic, since
--                   rounding breaks them. Fixed is a fixed-point instance on which the model runs.
--     Int           Signed integers, for times in nanoseconds.
--     Names         Python's `in` on lists of strings.
--   HomePlanner     home_planner.py
--     Edge          The object, margin and edge_margin.
--     Tiers         _direct, _groups, _staged, _greedy, _detour.
--     Rrt           _rrt and _shortcut.
--     Search        plan.
--     Certified, Tiered, Polyline, Branches, Chains, Growing, Smoothing, Safety, Behaviour   Proofs.
--   Teleop          teleop_mantis.py
--     Gripper       grip_tick, _grip_update, send_grip, _on_grip_response.
--                   Settled, Settling: proofs.
--     Home          _home_path_clear, _plan_home_path, _start_home, _end_home, _home_tick.
--                   Ramp (the walk) and Route (what was checked before it): proofs.
--     Buttons       The buttons of vr_tick, _on_engage, _on_disengage, _axlock_*; RecorderApi is what
--                   they use of the recorder. Exclusive, Apart: proofs.
--     Recording     The model of the recorder as a RecorderApi.
--     Command       full_cmd, with its lemmas.
--     Joints        on_joint_states, _joints_fresh, send_arm. Ready, Commanding: proofs.
--                   JointTests: examples.
--     Tracking      OneEuroFilter, on_vive_pose, _consume_Rc, and the freshness that vr_tick tests.
--                   Tracked: proofs. TrackingTests: examples.
--     Target        yaw_frame, _capture_refs, and vr_tick up to the buttons. Following: proofs.
--     Shaper        CommandShaper: set_target, _step, _run. Limited: proofs. Samples: examples.
--   Quest           quest_pub.py
--     Publisher     AdbBackend._read_raw and poll, QuestPub._click and tick; and on_vive_buttons of
--                   teleop_mantis.py, which reads its messages. Latch: proofs.
--   Recorder        lerobot_recorder.py
--     Image         _to_rgb, _to_depth, and _stamp_s in whole nanoseconds. Pixels: proofs.
--     Episode       The recorder's state, and the interface Lerobot for what it uses of lerobot.
--     Camera        _on_image, _commit_pending, _robot_values, _add_frame.
--     Session       start, stop, _save_loop with _save_worker, and runs of events.
--     Pairing, Consistent, Starting, Stopping, Runs, Failing   Proofs.
--     Counting      An instance of Lerobot that only counts.
--   Follower        lerobot_robot_mantis/lerobot_robot_mantis/mantis_follower.py
--     State         The object and the teleop's constants; _segment_value, _set_segment, _freeze_feed,
--                   _set_target, _feeder, _ensure_ik, _margin, _send_grip.
--     Waiting       _wait_segment and _settle, with their proofs.
--     Polyline      _run_path, with its proofs.
--     Edge, Tiers, Rrt, Search   The copy of the planner: _edge_margin, _plan_direct to _plan_detour,
--                   _plan_rrt and _shortcut, _plan_home. Agree and Same compare it with HomePlanner.
--     Action        send_action and _path_check. Approach: proofs.
--     Homing        _go_home. Retrying, Ending, Homeward: proofs.
--     Connecting    _command_sink, connect, _on_js, _on_image, _wait_for_frames.
--                   Latching: proofs.
--     Observing     observation_features, get_observation. Featured, and
--                   Recorder/Sizes: proofs. Samples: instances.
--   Policy          policy/dummy_policy_server.py
--     Table         build_waypoint_table, build_episode_table, build_table, check_speed.
--                   Steady: proofs.
--     Columns       _resolve_column_order, with its proofs.
--     Server        __init__, SendPolicyInstructions, _obs_sanity_checks, _row,
--                   _predict_action_chunk. Serving: proofs.
--   The modules Tests hold instances, runs and examples.
--
-- How the code is modelled
--   Methods are functions on a record of the object's fields. Exceptions and refusals are values of
--   Option or of a type of their own. Callbacks, buttons and the worker are events, and an
--   interleaving is a list of them; a save is one step of it.
--   The clock is a list of the readings that it still gives; past the last one it is past every
--   deadline. The loops of the planner that run until a deadline recurse on these readings, so they
--   need no fuel. In the follower each loop recurses on the readings of its rounds, past the last of
--   which it is disconnected, and the retry loop of _go_home on its number of attempts. What another
--   thread writes while a loop waits is one of the readings. The random generator is a function of
--   the number of the draw. Collision queries, lerobot, the action server and the median are parameters.
--
-- Not modelled
--   Logging and statistics, files and video encoding, the inverse kinematics and its collision
--   geometry, the tick that runs it with the orientation of the target, the shutdown of the
--   follower, the other policy tools, the Vive publisher, the monitors, and the C++ controllers.
pub mod Base
pub mod Follower
pub mod HomePlanner
pub mod Policy
pub mod Quest
pub mod Recorder
pub mod Teleop
