-- ===== src/PluginHost.antt =====
-- packages/plugin-host: the lifecycle of a plugin and its capabilities.
pub mod Lifecycle
pub mod Capabilities
pub mod Events
pub mod Trust
pub mod Host
mod Examples
