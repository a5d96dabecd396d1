-- ===== src/Dedupdisk.antt =====
-- pkg/devices/dedupdisk: a device that stores equal blocks once.
pub mod Stores
pub mod Device
pub mod FileStore
pub mod LunMap
pub mod IdStore
pub mod Impls
