-- ===== src/Sdk.antt =====
-- packages/chatbot-sdk: the library that services use to capture and ship their logs.
pub mod Schema
pub mod Client
pub mod Pii
pub mod Structlog
pub mod Transport
pub mod Openai
pub mod Anthropic
pub mod Langchain
pub mod Google
pub mod Llamaindex
pub mod Instrument
pub mod Sync
