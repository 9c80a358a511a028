-- ===== src/Surface.antt =====
-- pkg/surface: the protocols of the package managers, over the registry and its stores.
pub mod Site
pub mod Http
pub mod PullThrough
pub mod Generic
pub mod Maven
pub mod Debian
