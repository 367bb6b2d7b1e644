-- ===== src/Device.antt =====
-- src/device/virtual_input_device.rs: the threads that read devices, and the task that follows the
-- devices that come and go.
pub mod Reader
pub mod Watcher
pub mod Reading
pub mod Following
