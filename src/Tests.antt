-- ===== src/Tests.antt =====
-- Concrete runs: the bucket in memory, the store on it, and the control plane around it.
mod Memory
mod Fixtures
mod SpecText
mod StoreTests
mod ControlTests
mod EdgeTests
mod SurfaceTests
mod MavenTests
mod DebianTests
mod TeeTests
mod ProxyTests
mod IndexTests
mod OidcTests
