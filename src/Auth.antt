-- ===== src/Auth.antt =====
-- pkg/auth: credentials, the chain of authenticators and the middleware in front of the surfaces.
pub mod Credential
pub mod Chain
pub mod Oidc
use open_artifact.Shared.{Bytes, codes}
use open_artifact.Shared.Maps.{Dict}
use open_artifact.Core.{Json}

-- auth.AuthContext
pub record AuthContext : Type 0 where
  pub issuer : Bytes
  pub id : Bytes
  pub email : Bytes
  pub claims : Dict Json
  pub kind : Bytes

-- auth.Op, a string
abbrev pub op_read : Bytes
op_read = codes "read"

abbrev pub op_write : Bytes
op_write = codes "write"
