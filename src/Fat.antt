-- ===== src/Fat.antt =====
-- kernel/fat.hpp and kernel/fat.cpp: the FAT32 file system on the boot volume.
pub mod Table
pub mod Name
pub mod Volume
pub mod Reader
pub mod Directory
pub mod Writer
