-- ===== src/Usbdlib.antt =====
-- pkg/usbdlib: the NBD protocol, and the processing of requests against a device.
pub mod Header
pub mod Buffer
pub mod Request
pub mod Response
pub mod Device
pub mod Execute
pub mod Processor
pub mod Session
pub mod Stream
pub mod Kernel
pub mod Handler
