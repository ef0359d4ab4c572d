-- ===== src/Examples.antt =====
-- The theorems at concrete inputs.
mod Fixtures
mod Keys
mod Passes
mod Calls
mod Rendering
mod Api
mod Federation
mod Loops
mod Manifests
mod Pods
mod Startup
mod Webhooks
