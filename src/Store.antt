-- ===== src/Store.antt =====
-- pkg/core/blobstore: the blob-backed store and the layout of its objects in the bucket.
pub mod Paths
pub mod Io
pub mod Bucket
pub mod Memo
pub mod Calls
pub mod Files
pub mod Packages
pub mod Operations
