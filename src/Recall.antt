-- ===== src/Recall.antt =====
-- The recall tool (server/src/gateway/tools/recall.ts) and the text of a session window
-- (server/src/gateway/tools/session.ts).
pub mod Text
pub mod Clean
pub mod Normalised
pub mod Format
pub mod Window
mod Examples
