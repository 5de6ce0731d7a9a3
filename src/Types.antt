-- ===== src/Types.antt =====
-- The topology's data model: backend/types/types.go and backend/types/addrs.go.
-- An int that Go reads from JSON may be negative, so it is an integer; a pointer is an option.
pub mod Actions
pub mod Addresses
pub mod Configure
pub mod Samples
use kubendt.Prelude.{String, Bool, Option, List, Table, ℤ, pos}
use kubendt.Types.Addresses.{Addrs}

pub record MountSpec : Type 0 where
  pub file : String
  pub mount_to : String
  pub sensitive : Bool
  pub missing : Bool

pub record DeviceSpec : Type 0 where
  pub path : String

pub record NodeSpec : Type 0 where
  pub name : String
  pub image : String
  pub type : String
  pub shell_mode : String
  pub qemu : Bool
  pub privileged : Bool
  pub replicas : ℤ
  pub commands : List String
  pub readiness : List String
  pub env : Table String String
  pub mounts : List MountSpec
  pub devices : List DeviceSpec
  pub driver : String
  pub termination_grace_period_seconds : ℤ
  pub node_selector : Table String String
  pub node_name : String

pub record LinkSpec : Type 0 where
  pub local_intf : String
  pub node : String
  pub peer_node : String
  pub peer_intf : String
  pub uid : Option ℤ
  pub local_ip : Addrs
  pub peer_ip : Addrs
  pub peer_label : String
  pub name : String
  pub delay : String
  pub jitter : String
  pub loss : String
  pub bandwidth : String
  pub mtu : ℤ

pub record ScaleSpec : Type 0 where
  pub name : String
  pub replicas : ℤ

abbrev pub max_replicas : ℤ
max_replicas = pos 128
