-- ===== src/Sdk/Transport.antt =====
-- packages/chatbot-sdk/chatbot_sdk/transport.py: the buffer of log events and its flusher.
-- `Send` is the retry loop of `_send`, `State` the object with its methods, and the other
-- children are the proofs.
pub mod Send
pub mod State
pub mod Retry
pub mod Steps
pub mod Rounds
pub mod Queues
pub mod Fifo
pub mod Accounts
pub mod Counts
pub mod Drain
