-- ===== src/Boot.antt =====
-- hub/boot_proto.go and hub/boot_data.go: the boot server.
pub mod Crc
pub mod Whitening
pub mod Hex
pub mod Wire
pub mod FilePath
pub mod Server
pub mod Tests
