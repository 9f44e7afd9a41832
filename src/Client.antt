-- ===== src/Client.antt =====
-- backend/internal/mlclient/client.go: the client of the prediction service.
pub mod Predict
pub mod Retrying
pub mod Exchange
pub mod Answering
mod Examples
