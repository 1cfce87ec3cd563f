-- ===== src/Mapreduce.antt =====
-- mapreduce/: the messages, the master, the workers and what they share.
pub mod Messages
pub mod Master
pub mod Util
pub mod Worker
pub mod Client
pub mod Plugin
