-- ===== src/Scripts.antt =====
-- The release tools under scripts/.
pub mod Regex
pub mod Texts
pub mod Members
pub mod Occurs
pub mod Version
pub mod Actions
pub mod Runtime
pub mod Vectors
pub mod Links
pub mod Examples
pub mod Licenses
