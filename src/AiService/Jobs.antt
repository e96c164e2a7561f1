-- ===== src/AiService/Jobs.antt =====
-- A job of the queue, from its stream to its result: process_stream_entry and what it calls in
-- binary/ai-gateway-service/src/app/queue.rs. The state is what Redis and the upstream have seen; a
-- lease that expires is a step of its own, the other keys stay. Which commands fail is an argument,
-- and a command that fails does nothing; the length to which a stream is trimmed is left out.
pub mod Model
pub mod Fields
pub mod Commands
pub mod Process
pub mod Runs
pub mod Exhaust
pub mod Outcomes
pub mod Ran
pub mod Steps
pub mod Laws
