-- ===== src/Plugins.antt =====
-- The plugin manifests and the capability registry of app/plugin_sdk/manifest.py.
pub mod Manifest
pub mod Registry
mod Tests
