-- ===== src/Tests.antt =====
-- Small inputs, runs on them, and each theorem that has hypotheses at inputs that meet them.
mod Samples
mod Engine
mod Webhook
mod Dispatcher
mod Events
mod Metrics
mod Writes
mod Process
mod Api
mod Config
mod History
mod Rows
