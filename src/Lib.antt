-- ===== src/Lib.antt =====
-- Inferspect observes LLM traffic: an SDK logs each inference of a host application, an ingestion
-- service checks, redacts and publishes the logs to Valkey streams, consumers write the streams
-- into ClickHouse, and the ingestion service also keeps an outbox of commands for the agents on
-- the hosts. An insights service reads the rows, finds anomalies and sends an operator's kills to
-- that outbox, and a chat service is the host application. This library models that path, from the
-- SDK's spans and buffer to the rows, the way of a kill from the operator to the host's outbox,
-- and the chat service's streams.
--
-- The parts and their files:
-- - Sdk/Schema.antt: the log models of packages/chatbot-sdk/chatbot_sdk/schema.py.
-- - Sdk/Transport: BatchedLogTransport of packages/chatbot-sdk/chatbot_sdk/transport.py. Send.antt
--   is `_send`, with the HTTP client as a function from the attempt to its answer. State.antt is
--   the object and its methods; the flusher task is cut at its awaits into `wake` (from the wait
--   to `_send`) and `sent` (from the answer to the end of the round). Steps.antt runs any list of
--   these steps, so that a theorem about every list is one about every interleaving of the task
--   and its callers.
-- - Sdk/Client: the spans of packages/chatbot-sdk/chatbot_sdk/client.py. Chunk.antt is
--   `_chunk_text`, Span.antt is InferenceSpan, Tool.antt is ToolSpan, and Logger.antt is a block
--   of `inference` or `tool_call`: an opening, a list of calls on the span, and the way the block
--   is left. Context.antt is the context of a request, Responses.antt a stream of chunks and its
--   final response, and Traced.antt a function that is decorated by `tool_traced`.
-- - Sdk/Pii and Sdk/Structlog: packages/chatbot-sdk/chatbot_sdk/pii.py, whose regular expressions
--   stand as functions that cut a text into pieces, and structlog_processor.py.
-- - Sdk/Openai and Sdk/Anthropic: the traced calls of
--   packages/chatbot-sdk/chatbot_sdk/integrations/openai.py and anthropic.py, over a script of
--   what the client does.
-- - Sdk/Google: the wrappers of integrations/google.py, over such a script. Sdk/Instrument:
--   integrations/_instrument.py and the three functions `instrument`, which put the wrappers in a
--   client's place.
-- - Sdk/Langchain and Sdk/Llamaindex: the callbacks of integrations/langchain.py and
--   llamaindex.py, as steps on the table of open runs; Langchain/Runs/Interleaved.antt and
--   Llamaindex/Closed.antt run any list of them.
-- - Sdk/Sync: packages/chatbot-sdk/chatbot_sdk/sync.py, the blocking logger over the asynchronous
--   one, which is a parameter.
-- - Ingestion/Validation.antt, Ingestion/Pii.antt and Ingestion/Pipeline.antt: `parse`,
--   `PIIService.redact_event` and `IngestService.ingest_batch` of
--   apps/ingestion-service/ingestion_service/services, with the repositories
--   idempotency_repository.py and valkey_publisher.py. An exception is a value of `Failure` or a
--   `none`.
-- - Ingestion/Control: the outbox of repositories/control_queue.py (Queue.antt) and the operator's
--   commands of services/control_service.py (Service.antt).
-- - Ingestion/Http: the keys of services/auth_service.py and deps.py (Auth.antt), POST /v1/logs
--   (Logs.antt) and the control routes (Control.antt), each as a function from the decoded body to
--   the answer and the store.
-- - Consumer: `_decode`, `handle_batch`, `_coerce` and `_to_row` of apps/inference-consumer and
--   apps/app-log-consumer, with the dead-letter publisher.
-- - Insights/Anchor, Insights/Anchor/Lenient.antt and Insights/Anchor/Body.antt: the anchor and
--   the rolling hash of a captured conversation and the parsing of its body, of
--   apps/insights-api/insights_api/services/anchor.py.
-- - Insights/Kills and Insights/Listings.antt: services/agents_service.py; what a kill posts and
--   records is a list of effects. Kills/Reach.antt hands the posts to the routes of
--   Ingestion/Http, and Kills/Unobserved.antt is about sessions that were not captured.
-- - Insights/Window.antt and Insights/Anomaly: services/window.py and services/anomaly_service.py,
--   over a record of float operations.
-- - Insights/Timeline: services/session_service.py.
-- - Insights/Repository: the other queries of repositories/clickhouse_repo.py, their SQL text for
--   text (Sql.antt) and the values of their parameters (Bound.antt and Bound/Metrics.antt read the
--   placeholders).
-- - Insights/Rates.antt and Insights/Synthetic: what metrics_service.py and tools_service.py
--   compute from rows, and `generate_synthetic_logs` of services/admin_service.py, over the draws
--   of its rounds.
-- - Insights/Metrics: the checks of services/metrics_service.py and the SQL of its queries in
--   repositories/clickhouse_repo.py, text for text.
-- - Chat/Registry: the registry of active streams, of
--   apps/chat-service/chat_service/cancellation.py, with the tasks that it cancels.
-- - Chat/Store.antt, Chat/Shown.antt, Chat/Stream, Chat/Send and Chat/Conversations: the
--   repositories and `load_window` over a session with a committed and a working state; the texts
--   of chunks and tools; `stream_send` of services/chat_service.py over a script of what the model
--   does and of how it ends; `send_message` (Send.antt); and services/conversation_service.py with
--   the cancel route.
-- - Chat/Raw: apps/chat-service/chat_service/llm/sdk_integrations.py, the chats with the
--   providers' own clients as Sdk/Instrument leaves them (Events.antt: the streams of Anthropic's
--   client, and what is made for a chat).
-- - Chat/Users: the roles of repositories/user_repository.py and auth, with `set_user_role` of the
--   insights service, over the table that they share. Chat/Tools: the search of the knowledge
--   base, of llm/tools.py.
-- - Value and Valkey: Python values as json makes them, and the commands of Valkey that the
--   services use. Their laws are records, StreamLaws and ListLaws, which hold while no key expires
--   and no stream is trimmed.
-- - Tests: the theorems at concrete inputs, over stores in memory that fulfil the laws.
--
-- Numbers are natural numbers where the code counts, and floats stand as their text, but in the
-- anomalies and the rates, where they are a record of operations. The loops run over lists, but
-- for four: the retry loop runs over the attempts that are left, which the code bounds too; the
-- drain of a poll runs over its bound `max_batch - 1`; the lenient parser runs on fuel, of which
-- one more than the length of the text is enough while a decoded value ends after where it starts;
-- and the flusher's rounds, after `close`, run on fuel, of which one more than the number of
-- buffered events is enough.
--
-- Left as parameters: the SDK's clock, pydantic's validation, Presidio's two engines, `re`,
-- `json`, `hashlib`, `base64`, `random`, `uuid` and `str`, floats, the HTTP client, the providers'
-- clients, Valkey and ClickHouse. Not modelled: FastAPI's decoding of requests, settings and
-- process entry points, logging, jitter and wall-clock time, what ClickHouse makes of its SQL, the
-- routes of fastapi-users (of which the one that changes a user can set the flag of a superuser),
-- the chat service's LangChain adapter, its tools for quotes and the time and its wiring, the host
-- agent, and the web applications.
pub mod Prelude
pub mod Value
pub mod Valkey
pub mod Sdk
pub mod Ingestion
pub mod Chat
pub mod Consumer
pub mod Insights
pub mod Tests
