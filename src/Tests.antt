-- ===== src/Tests.antt =====
-- Runs on concrete inputs, and each theorem at an input that meets its hypotheses.
mod Sample
mod Common
mod Queue
mod Efficiency
mod Mining
mod Engine
mod HashApi
mod Network
mod Supervisor
mod Events
mod Run
