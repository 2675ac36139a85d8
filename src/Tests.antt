-- ===== src/Tests.antt =====
-- The theorems at concrete inputs, of the small deployment in Fixtures.
mod Fixtures
mod Guards
mod Queue
mod Polling
mod Console
mod Enrolment
mod Placement
mod Tenancy
mod Serving
mod Machines
