-- ===== src/Tests.antt =====
-- The theorems at concrete inputs, and runs of the definitions.
mod Fixture
mod Throttle
mod Access
mod Runner
mod Answers
mod Fields
mod Summary
mod Security
mod Random
mod Reporter
mod Writer
mod Router
mod Guard
mod Structure
