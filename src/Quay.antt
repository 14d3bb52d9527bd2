-- ===== src/Quay.antt =====
-- internal/controller/quay: the controllers that keep a Quay registry as the resources say.
pub mod Teams
pub mod Marker
