-- ===== src/Desktop.antt =====
-- apps/desktop/src-tauri: the desktop's own decisions.
pub mod LicenseStore
pub mod FeatureGate
pub mod Notes
