-- ===== src/Examples.antt =====
-- The programs under examples/, without their output and their command lines.
pub mod Wire
pub mod DevToDev
pub mod Synacker
