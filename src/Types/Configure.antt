-- ===== src/Types/Configure.antt =====
-- The targets and the links of a configure request: backend/types/config.go.
use kubendt.Prelude.{String, Bool, Option, List, ℤ}
use kubendt.Types.Actions.{ActionEntry, TcParamEntry}

pub record LinkShaping : Type 0 where
  pub node : String
  pub local_intf : String
  pub peer_node : String
  pub peer_intf : String
  pub shaping : Option TcParamEntry
  pub symmetric : Bool
  pub reverse : Option TcParamEntry
  pub remove : Bool
  pub mtu : Option ℤ

pub record PodConfig : Type 0 where
  pub pod : String
  pub actions : List ActionEntry
