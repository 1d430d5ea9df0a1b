-- ===== src/Profiles.antt =====
-- The validators of sdk/src/profiles: what they share is in the modules Issues to Stringify, then comes
-- a module for each profile.
pub mod Issues
pub mod Shapes
pub mod Dates
pub mod CheckDigit
pub mod Units
pub mod Stringify
pub mod Identifiers
pub mod Act
pub mod Object
pub mod Order
pub mod Party
pub mod Product
pub mod Invoice
pub mod Runs
mod Tests
