-- ===== src/Lib.antt =====
-- rises: the ROS 2 nodes that guard a fleet of vehicles. The geofence nodes compare the laser
-- scans with a map and report obstacles; the obstacle aggregator joins the reports of several
-- vehicles; the safety node halts the fleet when a node falls silent or reports an error, and
-- lets paths through only after they are validated; the message translator buffers the updates
-- of the map and delivers them to the geofence nodes; the mission controller turns intents of
-- operators into sequences of skill calls. They interact by messages on topics and by calls of
-- actions and services, which are lists and arguments here.
--
--   Aggregator: src/obstacle_aggregator, the class ObstacleAggregatorNode. `report_callback`
--     and the timer's `publish_combined`, with the cache of indices; `std::hash` is a
--     parameter.
--   Base: what the other files share: lists, machine words, dictionaries, integers, byte
--     strings.
--   Delivery: src/message_translator, the class ServiceDeliveryStrategy. `deliver` and
--     `deliverChunk`; a client is what its service does with each chunk.
--   Fiware: src/fiware_bridge, the class FiwareBridgeNode. The relays on a change and with a
--     throttle, the pallets (`map_updates_callback`, `push_pallet_map`, `dds_trigger`), the
--     JSON of the health (Fiware/Health) and the summary of the heatmap (Fiware/Heat). A JSON
--     message is the data that it is written from.
--
--   Grid: src/geofence/gridmap_node, the class GridMapData and the policies that edit it.
--     `insert`, `remove`, `clear_layer` and `clear` keep a merged grid, a grid for each layer
--     and the reference counts; the cells that a rasteriser finds are an argument. `visited` is
--     the loop of Bresenham's algorithm in `rasterizeLine`, and `is_path_blocked` the check of
--     a path.
--   Latency: src/geofence/common, the class LatencyRecorder. `record` and `writerLoop` are cut
--     into atomic actions (`begin_record`, `check_room`, `fill_slot`, `publish`;
--     `load_running`, `poll`, `drain`), and an interleaving is a list of actions. Indices are
--     64-bit words that wrap around. `create_size` is the size that `create` gives the buffer.
--   LegFilter: src/rises_leg_filter, the class LegFilterNode. `obstacle_callback`,
--     `humans_tracked_callback` and `publish_candidates`; `double` and its operations are a
--     parameter.
--   Mission: src/rises_mission_controller, the class MissionControllerNode. `intentCallback` is
--     `receive`, `handle` and `spawn`; `executeMission` is `begin_mission`, `next_task` and
--     `finish_task`; an interleaving is a list of actions, and what a skill server answers is
--     an argument.
--   Predictor: src/obstacle_heatmap_predictor, the class HeatmapPredictorNode.
--     `obstacle_report_callback` keeps the tracks and their velocities, and `publish_heatmap`
--     stamps them on the grid (Predictor/Stamping, Predictor/Heatmap); `double` and `float` are
--     parameters with their operations.
--   Replay: src/message_translator, the class TFReplayManager. The buffers, the start of a
--     replay and the timer; the replay time, `std::sort` and the reading of a JSON text are
--     arguments.
--   Robots: src/geofence/common, the class RobotTracker and the policy RobotTrackingPolicy. The
--     table of robots and the test of an obstacle; the overlap of an obstacle and a footprint
--     is a parameter.
--   Safety: src/safety, the class Safety. One function per callback, `halt_system` and
--     `resume_system` as written, and `run` for callbacks in any order.
--   Segments: src/geofence/spatial_node, the class ErrorSegmentTracker. `get_or_assign_id` is
--     `find_best`, the two loops, and `assign`, what follows them; a cycle is a list of
--     actions. The drift test, the score and the sort are parameters.
--   SkillBridge: src/rises_skill_bridge, the class SkillBridgeNode. One function for each
--     handler of an accepted goal, from the goal to its events; a service is what it answers
--     within the timeout.
--   Spatial: src/geofence/spatial_node: the class NanoflannAdapter (Spatial/Index),
--     SnapshotMemoryPool (Spatial/Pool), GeofenceMap (Spatial/Geofence), BatchOperations
--     (Spatial/Batch), and MapUpdateHandler with the services of GeofenceNode
--     (Spatial/Service). A snapshot is a record, `update_snapshot` copies, modifies and
--     publishes it; floating-point numbers, the geometry variant and the radius search of
--     nanoflann are parameters.
--
--   Tasks: src/rises_task_examples. `run` of the class TaskRunner and its loop `run_steps`,
--     over steps that act on a world, and the tasks of the class TaskExamplesNode, whose world
--     is the list of goals sent to the skills. What a skill answers, and when `cancel` is
--     called, are arguments.
--
--   Translator: src/message_translator, the class MessageTranslatorNode. The callbacks are in
--     Translator/Handlers, the timer and the flush thread in Translator/Flush: `flushBuffer` is
--     `begin_flush` and `finish_flush`, with `collapse` between them, and the delivery is that
--     of Delivery; the callback of the timer is cut in two. A run is a list of actions.
--
-- Only Bresenham's loop runs on fuel, one round more than the longer of the two distances,
-- which is enough where the ends are less than 2 ^ 29 columns and rows apart
-- (Grid.Visits.visited_total). Signed sums of `int` that are out of range are taken to wrap
-- around. Other loops are recursion on lists or on counts.
--
-- Not modelled: the ROS layer (nodes, executors, parameters, transport), logging,
-- floating-point geometry and the libraries under it, JSON conversions, and the Python
-- services. The cell of a pose on a heatmap, the overlap of an obstacle and a robot, and the
-- cells that an obstacle covers are arguments. The memory model is sequential consistency: each
-- action reads and writes atomically.
pub mod Base
pub mod Aggregator
pub mod Delivery
pub mod Fiware
pub mod Grid
pub mod Latency
pub mod LegFilter
pub mod Mission
pub mod Predictor
pub mod Replay
pub mod Robots
pub mod Safety
pub mod Segments
pub mod SkillBridge
pub mod Spatial
pub mod Tasks
pub mod Translator
