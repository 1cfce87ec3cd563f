-- ===== src/Dfs.antt =====
-- The distributed file system: dfs/.
pub mod Messages
pub mod Controller
pub mod Client
pub mod Server
