-- ===== src/Config.antt =====
-- libupkeeper/upkeeper/upk_config.c: service descriptors, their names, and the reading of a file.
pub mod Desc
pub mod Overlay
pub mod Layers
pub mod Overlaying
pub mod Merging
pub mod Settings
pub mod Overriding
pub mod Names
pub mod Naming
pub mod Loading
pub mod LoadLaws
pub mod Finalize
mod Examples
