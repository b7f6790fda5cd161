-- ===== src/SiteInput.antt =====
-- internal/siteinput/siteinput.go: the validators of values that end in commands run by root, in
-- nginx or systemd configuration, or in docker arguments.
pub mod Patterns
pub mod Values
pub mod Paths
pub mod Docker
pub mod Harmless
pub mod Location
pub mod Confined
pub mod Options
pub mod Ini
mod Tests
