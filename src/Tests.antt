-- ===== src/Tests.antt =====
-- A concrete platform and the theorems at inputs on it.
mod Account
mod Handlers
mod Machine
mod Requests
mod Symbols
mod Tokens
mod Group
mod Limits
mod Objects
mod Pace
mod Setup
mod Processes
mod Starts
mod Loop
mod Honest
mod Watched
mod Counted
