-- ===== src/Types/Samples.antt =====
-- Small topologies for the tests.
use kubendt.Prelude.{String, false, none, some, [], ◌∷◌, ℤ, pos, List}
use kubendt.Types.{NodeSpec, LinkSpec}

abbrev pub sample_node : String → ℤ → NodeSpec
sample_node name replicas = record {
  name = name;
  image = "alpine";
  type = "host";
  shell_mode = "";
  qemu = false;
  privileged = false;
  replicas = replicas;
  commands = [];
  readiness = [];
  env = [];
  mounts = [];
  devices = [];
  driver = "";
  termination_grace_period_seconds = pos 2;
  node_selector = [];
  node_name = "";
}

abbrev pub sample_link : String → String → String → String → LinkSpec
sample_link node local_intf peer_node peer_intf = record {
  local_intf = local_intf;
  node = node;
  peer_node = peer_node;
  peer_intf = peer_intf;
  uid = none;
  local_ip = [];
  peer_ip = [];
  peer_label = "";
  name = "";
  delay = "";
  jitter = "";
  loss = "";
  bandwidth = "";
  mtu = pos 0;
}

abbrev pub with_uid : ℤ → LinkSpec → LinkSpec
with_uid u l = record l { uid = some u }

-- A router with two replicas, a host and a switch.
abbrev pub lab : List NodeSpec
lab = sample_node "router" (pos 2) ∷ sample_node "host" (pos 1) ∷ sample_node "dmz-sw" (pos 1) ∷ []

abbrev pub lab_links : List LinkSpec
lab_links =
    sample_link "router-0" "eth1" "host" "eth1"
    ∷ sample_link "router-1" "eth1" "dmz-sw" "eth1"
    ∷ sample_link "dmz-sw" "eth2" "external" "ens3"
    ∷ []
