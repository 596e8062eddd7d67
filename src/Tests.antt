-- ===== src/Tests.antt =====
-- Concrete runs of the engine, and the theorems at concrete inputs.
mod Core
mod Records
mod Log
mod Buffer
mod Keys
mod Storage
