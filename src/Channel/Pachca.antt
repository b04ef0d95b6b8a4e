-- ===== src/Channel/Pachca.antt =====
-- internal/channel/pachca: the message, its client, and the channel made of both.
pub mod Format
pub mod Client
pub mod Sending
mod Tests
