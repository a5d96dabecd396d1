-- ===== src/Objstore.antt =====
-- pkg/devices/objstore: a device over an object store, cached in local files.
pub mod SparseCopy
pub mod Env
pub mod Modes
pub mod Container
pub mod Compress
pub mod Encrypt
pub mod Options
pub mod Wrapped
pub mod StoreParams
pub mod Load
pub mod Segment
pub mod Device
