-- ===== src/Tests.antt =====
-- Concrete inputs: a small server and a text format that meet the laws of the interfaces, and each
-- theorem applied to them.
mod Split
mod Server
mod Json
mod Kernels
mod Data
mod Sessions
mod Events
mod Messages
mod Answers
mod Handlers
mod Devices
mod Runs
mod Notices
mod Logs
mod Journeys
mod Takeovers
mod Orders
mod Requests
