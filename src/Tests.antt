-- ===== src/Tests.antt =====
-- The theorems at concrete inputs, and runs of the definitions.
mod Circuits
mod Orders
mod Startups
mod Stores
mod Benchmarks
mod Loads
mod Samples
mod Costs
mod Requests
mod Streams
mod Records
mod Logins
mod Answers
