-- ===== src/Tests.antt =====
-- Tests and examples, on a gateway whose libraries are concrete functions.
mod Fixtures
mod Texts
mod Requests
mod Jobs
mod Fleet
mod Startup
mod Exchange
mod Sinks
mod Forms
mod Internal
mod Workers
