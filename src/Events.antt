-- ===== src/Events.antt =====
-- UemuPkg/Drivers/GoldfishEventsDxe/GoldfishEventsDxe.c: the Goldfish keyboard driver.
pub mod Codes
pub mod Keys
pub mod Device
pub mod Convert
pub mod Poll
pub mod Batch
pub mod Notify
pub mod Unique
pub mod Dispatch
pub mod Init
pub mod Start
mod Tests
