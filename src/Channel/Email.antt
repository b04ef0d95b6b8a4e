-- ===== src/Channel/Email.antt =====
-- internal/channel/email: the subject and the body of a mail, the SMTP dialogue, and the channel.
pub mod Html
pub mod Format
pub mod Markup
pub mod Order
pub mod Titles
pub mod Message
pub mod Sender
mod Tests
