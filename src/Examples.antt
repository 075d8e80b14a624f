-- ===== src/Examples.antt =====
-- The handlers on concrete data, and the theorems at inputs that meet their hypotheses.
mod Data
mod Offers
mod Proofs
mod Missions
mod Disputes
mod Contacts
mod Closing
mod Routes
mod Accounts
mod Removals
mod Logins
mod Identities
mod Requests
mod Advertising
