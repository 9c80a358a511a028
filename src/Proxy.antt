-- ===== src/Proxy.antt =====
-- pkg/proxy: the download filter, the negative cache and the upstream client of the proxy surfaces.
pub mod Filter
pub mod Negative
pub mod Upstream
