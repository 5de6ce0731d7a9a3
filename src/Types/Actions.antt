-- ===== src/Types/Actions.antt =====
-- The actions of a configure request: backend/types/config.go. A pointer is an option, and the raw
-- text of a custom command is a string.
use kubendt.Prelude.{String, Bool, Option, none, List, [], ℤ, pos}

pub record ActionFlags : Type 0 where
  pub persist : Bool
  pub get : Bool

pub record RipTimers : Type 0 where
  pub update : ℤ
  pub timeout : ℤ
  pub garbage : ℤ

pub record ActionOptions : Type 0 where
  pub persist_history : Option Bool
  pub capture_output : Option Bool

pub record GemodelSpec : Type 0 where
  pub p : String
  pub r : String
  pub one_minus_h : String
  pub one_minus_k : String

pub record TcMatch : Type 0 where
  pub proto : String
  pub src : String
  pub dst : String
  pub src_port : Option ℤ
  pub dst_port : Option ℤ
  pub dscp : Option ℤ
  pub vlan : Option ℤ

-- A shaping request lists classes, and a class may hold a shaping request.
mutual
  pub data TcParamEntry : Type 0 where
    tc_param_entry :
        (qdisc delay jitter delay_correlation distribution loss loss_correlation : String)
        → Option GemodelSpec
        → (duplicate corrupt reorder reorder_correlation : String) → (limit : Option ℤ)
        → (rate burst latency : String) → TcClasses
        → TcParamEntry

  pub data TcClasses : Type 0 where
    no_classes : TcClasses
    tc_class :
        (name rate ceil : String)
        → (prio : Option ℤ) → (matches : List TcMatch) → (default : Bool) → (queue : String)
        → (limit : Option ℤ) → TcShaping
        → TcClasses
        → TcClasses

  pub data TcShaping : Type 0 where
    unshaped : TcShaping
    shaped : TcParamEntry → TcShaping

pub record ActionEntry : Type 0 where
  pub type : String
  pub iface : String
  pub cidr : String
  pub gateway : String
  pub dst_cidr : String
  pub device : String
  pub family : String
  pub bridge : String
  pub ifaces : List String
  pub vlan : ℤ
  pub vlans : List ℤ
  pub native_vlan : ℤ
  pub mode : String
  pub controller : String
  pub protocols : String
  pub datapath_id : String
  pub flow : String
  pub file : String
  pub file_content : String
  pub options : Option ActionOptions
  pub external_port : ℤ
  pub internal_ip : String
  pub internal_port : ℤ
  pub protocol : String
  pub dns_server : String
  pub dns_domain : String
  pub dns_servers : List String
  pub dns_search : List String
  pub tc_params : Option TcParamEntry
  pub ospf_area : String
  pub router_id : String
  pub cost : ℤ
  pub priority : Option ℤ
  pub hello_interval : ℤ
  pub dead_interval : ℤ
  pub network_type : String
  pub area_type : String
  pub auth_type : String
  pub auth_key : String
  pub auth_key_id : ℤ
  pub redistribute : String
  pub timers : Option RipTimers
  pub as_number : ℤ
  pub remote_as : ℤ
  pub neighbor : String
  pub update_source : String
  pub multihop : ℤ
  pub net : String
  pub level : String
  pub prefix : String
  pub pool : String
  pub command : String
  pub executor : String

-- An action of which only the type is given.
abbrev pub bare_action : String → ActionEntry
bare_action type = record {
  type = type;
  iface = "";
  cidr = "";
  gateway = "";
  dst_cidr = "";
  device = "";
  family = "";
  bridge = "";
  ifaces = [];
  vlan = pos 0;
  vlans = [];
  native_vlan = pos 0;
  mode = "";
  controller = "";
  protocols = "";
  datapath_id = "";
  flow = "";
  file = "";
  file_content = "";
  options = none;
  external_port = pos 0;
  internal_ip = "";
  internal_port = pos 0;
  protocol = "";
  dns_server = "";
  dns_domain = "";
  dns_servers = [];
  dns_search = [];
  tc_params = none;
  ospf_area = "";
  router_id = "";
  cost = pos 0;
  priority = none;
  hello_interval = pos 0;
  dead_interval = pos 0;
  network_type = "";
  area_type = "";
  auth_type = "";
  auth_key = "";
  auth_key_id = pos 0;
  redistribute = "";
  timers = none;
  as_number = pos 0;
  remote_as = pos 0;
  neighbor = "";
  update_source = "";
  multihop = pos 0;
  net = "";
  level = "";
  prefix = "";
  pool = "";
  command = "";
  executor = "";
}
