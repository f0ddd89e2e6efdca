-- ===== src/Tests.antt =====
-- Concrete inputs on which the theorems apply.
mod Data
mod Funds
mod Policies
mod Records
mod Agents
mod Fetches
mod Tokens
mod Gates
mod Serving
mod Gateways
