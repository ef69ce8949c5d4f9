-- ===== src/Config.antt =====
-- server/src/config.ts: the configuration that is read from the environment.
pub mod Env
pub mod Schema
pub mod Load
pub mod Safe
mod Examples
use mcp_zeromem.Common.{ℕ, String, Bool, Option}

-- `embedderChoiceSchema` of shared/src/memory.ts.
pub data EmbedderChoice : Type 0 where
  auto onnx hash openai no_embedder : EmbedderChoice

-- `remoteEmbedderSpecSchema` of shared/src/memory.ts, less the fields that the configuration omits.
pub record RemoteEmbedder : Type 0 where
  pub url : String
  pub model : String
  pub query_prefix : String
  pub document_prefix : String
  pub timeout_ms : ℕ

pub record Config : Type 0 where
  pub data_dir : String
  pub port : ℕ
  pub keep_alive_timeout_ms : ℕ
  pub auth_token : Option String
  pub read_only : Bool
  pub recall_text_limit : ℕ
  pub embedder : EmbedderChoice
  pub allow_embedder_switch : Bool
  pub remote_embedder : Option RemoteEmbedder
  pub embedding_api_key : Option String
  pub session_id : Option String
  pub scope : Option String
  pub curator_token : Option String
  pub curator : Bool
