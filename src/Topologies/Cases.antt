-- ===== src/Topologies/Cases.antt =====
-- Topology objects at small inputs: created, upserted, narrowed and read back.
use kubendt.Prelude.{
  true, ℕ, ◌≡◌, ◌≢◌, refl, String, false, some, [], ◌∷◌, List, ℤ, pos, contains, lookup, select,
  string_eq, ◌==◌, All, Distinct, arith, cut_last_dash, atoi, all_digit_chars,
}
use kubendt.Types.{LinkSpec, NodeSpec}
use kubendt.Types.Addresses.{first}
use kubendt.Types.Samples.{sample_link, sample_node, with_uid}
use kubendt.Names.{to_crd_peer_pod, resolve_pod_name_from_link, external_node_name}
use kubendt.Topologies.{Entry, local_entry, peer_entry}
use kubendt.Topologies.Upserts.{
  Stored, collect_links, no_additions, upsert_append_links_in_topologies, uid_of,
}
use kubendt.Topologies.Wanted.{Upserted, wanted, upsert_append_links_in_topologies-Upserted}
use kubendt.Topologies.Scope.{is_near, filter_links_by_pods, filter_links_by_pods-is_near}
use kubendt.Topologies.Readback.{end_name, ends_key, entry_key, build_links_from_topology_crds}
use kubendt.Topologies.Reread.{
  pair_keys, link_at, object_at, mirrored, build_links_from_topology_crds_lem,
}
use kubendt.Topologies.Roundtrip.{deployed, is_wired, build_links_from_topology_crds-deployed}
use kubendt.Topologies.Create.{create_topology_for_pod}
use kubendt.Topologies.Agreed.{entries_of, label_of, LeavesPod}
use kubendt.Topologies.Created.{
  create_topology_for_pod-upsert, upsert-create_topology_for_pod, create_topology_for_pod_self,
}

text_ne : (s t : String) → (s == t) ≡ false → s ≢ t
text_ne s t h = λ e. ground (arith, h, (string_eq.beq_iff s t).1 e)

abbrev site : List NodeSpec
site = sample_node "a" (pos 1) ∷ sample_node "b" (pos 1) ∷ sample_node "c" (pos 1) ∷ []

-- A link with a uid, one to the outside, and a chain.
abbrev cables : List LinkSpec
cables =
    let up : LinkSpec = sample_link "a" "eth2" "external" "ens3" in
    with_uid (pos 5) (sample_link "a" "eth1" "b" "eth1")
    ∷ (record up { peer_label = "uplink"; name = "wan" })
    ∷ sample_link "b" "eth2" "c" "eth1"
    ∷ []

abbrev first_draw : ℕ → ℤ
first_draw n = pos n

abbrev later_draw : ℕ → ℤ
later_draw n = pos 77

-- The object of "b" stands already.
abbrev stored : Stored
stored = record {
  objects =
      (
        "b-0",
        (record {
          local_intf = "eth1";
          local_ip = "";
          peer_pod = "a-0";
          peer_intf = "eth1";
          peer_ip = "";
          uid = some (pos 5);
        })
            ∷ [],
      )
      ∷ [];
  peer_labels = [];
}

upsert_append_links_in_topologies-Upserted_example :
    let (touched, after) = upsert_append_links_in_topologies first_draw cables site stored in
    Upserted
      (lookup "b-0" stored.objects)
      (wanted first_draw site "b-0" cables)
      (lookup "b-0" after.objects)
      (contains touched "b-0")
unfolding resolve_pod_name_from_link cut_last_dash atoi all_digit_chars first
upsert_append_links_in_topologies-Upserted_example =
    upsert_append_links_in_topologies-Upserted first_draw cables site stored "b-0"
      (text_ne "b-0" external_node_name refl) ((refl, refl, refl, refl), tt)
      ((refl, refl, refl, refl), ((refl, refl, refl, refl), tt))

filter_links_by_pods-is_near_example :
    select (is_near cables ("c" ∷ [])) (filter_links_by_pods cables ("c" ∷ []))
    ≡ select (is_near cables ("c" ∷ [])) cables
filter_links_by_pods-is_near_example = filter_links_by_pods-is_near cables ("c" ∷ [])

abbrev held : Entry
held = record {
  local_intf = "eth1";
  local_ip = "";
  peer_pod = "a-0";
  peer_intf = "eth1";
  peer_ip = "";
  uid = some (pos 5);
}

build_links_from_topology_crds_lem_example :
    Distinct (pair_keys (build_links_from_topology_crds stored.objects))
    × (link_at "a-0/eth1<->b-0/eth1" (build_links_from_topology_crds stored.objects)
        ≡ object_at "a-0/eth1<->b-0/eth1" stored.objects)
    × (entry_key "a-0" (mirrored "b-0" held) ≡ entry_key "b-0" held)
build_links_from_topology_crds_lem_example =
    build_links_from_topology_crds_lem stored.objects "a-0/eth1<->b-0/eth1" "b-0" held
      ((text_ne "a-0" external_node_name refl, tt), tt)

cables-LeavesPod : All (LeavesPod "a-0" site) cables
unfolding resolve_pod_name_from_link cut_last_dash atoi all_digit_chars
cables-LeavesPod = (refl, (refl, (refl, tt)))

create_topology_for_pod-upsert_example :
    let created = create_topology_for_pod first_draw "a-0" cables site in
    (entries_of
        (lookup "a-0" (upsert_append_links_in_topologies first_draw cables site stored).1.objects)
      ≡ created.links)
    × (label_of (lookup "a-0" (collect_links first_draw site cables no_additions).peer_label_by_pod)
        ≡ created.peer_label)
create_topology_for_pod-upsert_example =
    create_topology_for_pod-upsert first_draw cables site stored "a-0"
      (text_ne "a-0" external_node_name refl) cables-LeavesPod refl

-- The object of "a" has been created.
abbrev created_a : Stored
created_a = record {
  objects = ("a-0", (create_topology_for_pod first_draw "a-0" cables site).links) ∷ [];
  peer_labels = [];
}

upsert-create_topology_for_pod_example :
    let (touched, after) = upsert_append_links_in_topologies later_draw cables site created_a in
    (lookup "a-0" after.objects ≡ lookup "a-0" created_a.objects) × (contains touched "a-0" ≡ false)
upsert-create_topology_for_pod_example =
    upsert-create_topology_for_pod first_draw later_draw cables site created_a "a-0"
      (text_ne "a-0" external_node_name refl) cables-LeavesPod refl

abbrev looped : LinkSpec
looped = sample_link "a" "eth1" "a" "eth2"

resolve_a : resolve_pod_name_from_link "a" site ≡ "a-0"
unfolding resolve_pod_name_from_link
resolve_a = refl

create_topology_for_pod_self_example :
    let near : Entry = record (local_entry "a-0" looped) {
      uid = some (uid_of first_draw 0 looped);
    } in
    let far : Entry = record (peer_entry "a-0" looped) {
      uid = some (uid_of first_draw 0 looped);
    } in
    let before : Stored = record { objects = []; peer_labels = [] } in
    let after = (upsert_append_links_in_topologies first_draw (looped ∷ []) site before).1 in
    ((create_topology_for_pod first_draw "a-0" (looped ∷ []) site).links ≡ far ∷ [])
    × (lookup "a-0" after.objects ≡ some (near ∷ far ∷ []))
create_topology_for_pod_self_example =
    create_topology_for_pod_self first_draw looped site "a-0"
      (text_ne "a-0" external_node_name refl) resolve_a resolve_a

build_links_from_topology_crds-deployed_example :
    let read =
      pair_keys
        (build_links_from_topology_crds (deployed first_draw cables site ("a-0" ∷ "b-0" ∷ []))) in
    Distinct read
    × (contains read "b-0/eth2<->c-0/eth1"
        ≡ is_wired site cables "b-0/eth2<->c-0/eth1" ("a-0" ∷ "b-0" ∷ []))
build_links_from_topology_crds-deployed_example =
    build_links_from_topology_crds-deployed first_draw cables site ("a-0" ∷ "b-0" ∷ [])
      "b-0/eth2<->c-0/eth1"
      (text_ne "a-0" external_node_name refl, (text_ne "b-0" external_node_name refl, tt))

-- A link counts that ends on one of the pods, though its other pod has no object.
cables_wired : is_wired site cables "b-0/eth2<->c-0/eth1" ("a-0" ∷ "b-0" ∷ []) ≡ true
unfolding resolve_pod_name_from_link cut_last_dash atoi all_digit_chars end_name ends_key
    to_crd_peer_pod
cables_wired = refl
