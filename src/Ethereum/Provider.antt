-- ===== src/Ethereum/Provider.antt =====
-- crates/resurrect-ethereum/src/provider.rs
use rbp.Prelude.{ℕ, String, Option, List}
use rbp.Prelude.Stateful.{Stateful}
use rbp.Core.Namespace.{B256, Namespace}
use rbp.Core.Validation.{Announcement}

pub record RegistryConstants : Type 0 where
  pub version : ℕ
  pub max_ttl : ℕ
  pub max_record_bytes : ℕ

pub record BlockInfo : Type 0 where
  pub number : ℕ
  pub timestamp : ℕ
  pub hash : B256

pub data BlockReference : Type 0 where
  number : ℕ → BlockReference
  latest safe finalized : BlockReference

pub data ProviderError : Type 0 where
  configuration request range_limit unsupported missing : String → ProviderError
  read_only : ProviderError

-- the trait `RegistryProvider`, over a transport of state `W`
pub record RegistryProvider (W : Type 0) : Type 0 where
  pub chain_id : Stateful W ℕ ProviderError
  pub registry_constants : ℕ → Stateful W RegistryConstants ProviderError
  pub block : BlockReference → Stateful W (Option BlockInfo) ProviderError
  pub announcements : ℕ → Namespace → ℕ → ℕ → Stateful W (List Announcement) ProviderError
  pub announce : ℕ → Namespace → ℕ → ℕ → List ℕ → Stateful W B256 ProviderError
