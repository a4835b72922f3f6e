-- ===== src/Examples.antt =====
-- The theorems at concrete inputs, and runs of the definitions.
mod Fixtures
mod Store
mod Devices
mod Risks
mod Policies
mod Sessions
mod Gate
mod Limits
mod Login
mod Accounts
mod Logout
mod Dispatch
mod Register
mod Factors
mod Passkeys
mod Serial
mod Start
mod Growth
mod Owners
