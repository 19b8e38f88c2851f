-- ===== src/Organize.antt =====
-- organize/file_organizer.go: release names are read, and media files are moved into the library.
pub mod Names
pub mod Paths
pub mod FileSystem
pub mod Moves
pub mod Place
pub mod Library
