-- ===== src/Translator.antt =====
-- src/message_translator: message_translator_node.hpp and message_translator_node.cpp.
-- The node between the fleet's messages and the geofence nodes: it buffers the updates of the map,
-- collapses them, delivers them from a thread of its own, and holds back the orders until then.
-- The JSON converters are parameters. Wall times are nanoseconds. The steps of the flush thread and
-- the callbacks of the executor, which runs one callback at a time, are actions, and a run is any
-- sequence of them: `begin_flush` is `flushBuffer` up to the delivery, `finish_flush` the rest, and
-- the timer's callback is cut after its first test, where the flush thread can start.
pub mod State
pub mod Handlers
pub mod Flush
pub mod Run
pub mod Collapse
pub mod Orders
pub mod Relayed
pub mod Ready
pub mod Retried
pub mod Progress
pub mod Applied
mod Tests
