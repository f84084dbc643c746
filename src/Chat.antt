-- ===== src/Chat.antt =====
-- apps/chat-service: its active streams, conversations, chats, raw chats, users and tools.
pub mod Registry
pub mod Takeover
pub mod Store
pub mod Models
pub mod Shown
pub mod Stream
pub mod Conversations
pub mod Send
pub mod Raw
pub mod Users
pub mod Tools
