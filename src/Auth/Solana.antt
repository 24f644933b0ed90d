-- ===== src/Auth/Solana.antt =====
-- What src/auth uses of the crate `solana_sdk`, and of socket addresses: parsers and a signature test.
-- Nothing is assumed of them.
use aero_nyx_private_ed.Base.{ℕ, Bool, List, Option, Text, Equality}

pub record Solana : Type 1 where
  pub Pubkey : Type 0
  pub Signature : Type 0
  pub pubkey_from_str : Text → Option Pubkey
  pub signature_from_str : Text → Option Signature
  -- `signature.verify(pubkey.as_ref(), message)`.
  pub verify : Pubkey → List ℕ → Signature → Bool

-- `SocketAddr`, which the code parses and compares.
pub record Sockets : Type 1 where
  pub SocketAddr : Type 0
  pub addr_eq : Equality SocketAddr
  pub addr_from_str : Text → Option SocketAddr
