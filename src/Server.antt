-- ===== src/Server.antt =====
-- cmd/usbdsrvd: the configuration, from the arguments to the options of an object store.
pub mod Config
pub mod Options
pub mod Served
pub mod Program
