-- ===== src/Ingestion/Http.antt =====
-- The HTTP layer of the ingestion service: the keys of its clients and its routes. FastAPI has
-- decoded and validated the bodies.
pub mod Auth
pub mod Logs
pub mod Admission
pub mod Control
pub mod Guards
use inferspect.Prelude.{ℕ, String}

-- What a route answers: 202 with a body, or an error status with its detail; 500 stands for any
-- exception that a route lets through.
pub data Answer {ℓ} (A : Type ℓ) : Type ℓ where
  accepted : A → Answer A
  http_error : ℕ → String → Answer A
