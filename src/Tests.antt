-- ===== src/Tests.antt =====
-- Concrete inputs, runs of the code on them, and the theorems at them.
mod Sample
mod Trading
mod Around
mod Opening
mod Days
mod Whole
mod Web
mod WholeDays
mod Sessions
