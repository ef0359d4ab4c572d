-- ===== src/SpireApi.antt =====
-- pkg/spireapi: the clients of the SPIRE server's APIs.
pub mod Types
pub mod Batch
pub mod Convert
pub mod Clients
pub mod TrustDomains
pub mod Svids
pub mod Bundles
pub mod Connection
