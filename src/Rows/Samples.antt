-- ===== src/Rows/Samples.antt =====
-- The table link_attributes at small inputs.
use kubendt.Prelude.{String, some, List, [], ◌∷◌, ◌≡◌, refl, pos, lookup, string_eq}
use kubendt.Types.{LinkSpec}
use kubendt.Types.Addresses.{extra}
use kubendt.Types.Samples.{lab, sample_link}
use kubendt.Names.{resolve_pod_name_from_link, has_node}
use kubendt.Attributes.{attrs_of, attrs_empty, has_shaping, nothing_in, swapped}
use kubendt.Rows.{
  LinkRows, save_link_attributes, load_link_attributes, fill_link_attributes, row_key, row_of,
  peer_of, delete_rows, attrs_of_row, decode_addrs, encode_addrs, end_name, filled, mtu_row,
}
use kubendt.Rows.Load.{load_link_attributes-save_link_attributes}
use kubendt.Rows.View.{view}
use kubendt.Rows.Ops.{Op, save, forget_pods, set_mtu, run_ops, replay}
use kubendt.Rows.Replay.{Implements, run_ops-Implements}

abbrev uplink : LinkSpec
uplink =
    let l : LinkSpec = sample_link "host" "eth1" "dmz-sw" "eth2" in
    record l { delay = "5ms"; local_ip = "10.0.0.1" ∷ "10.0.0.2" ∷ [] }

abbrev one_text : List String → String
one_text [] = ""
one_text (a ∷ rest) = a

abbrev run : List Op
run =
    save "ns" (uplink ∷ []) lab
    ∷ set_mtu "ns" "dmz-sw-0" "eth2" "host-0" "eth1" (pos 1400)
    ∷ forget_pods "other" ("host-0" ∷ [])
    ∷ []

run_ops-Implements_example :
    Implements one_text "c" (run_ops one_text "c" run []) (replay one_text "c" run (view []))
run_ops-Implements_example = run_ops-Implements one_text "c" run [] tt

-- What is saved for a link is filled in again from its other end, the extra addresses swapped.
abbrev read_back : LinkSpec
read_back =
    let l : LinkSpec = sample_link "dmz-sw-0" "eth2" "host-0" "eth1" in
    record l { peer_ip = "10.0.0.1" ∷ [] }

filled_from_peer :
    fill_link_attributes read_back "dmz-sw-0" "host-0" (
      load_link_attributes
        (λ raw. some (raw ∷ []))
        "c"
        "ns"
        (save_link_attributes one_text "c" "ns" (uplink ∷ []) lab [])
        [])
    ≡ record read_back { delay = "5ms"; peer_ip = "10.0.0.1" ∷ "10.0.0.2" ∷ [] }
unfolding save_link_attributes load_link_attributes fill_link_attributes attrs_of attrs_empty
    has_shaping nothing_in swapped row_key row_of peer_of attrs_of_row decode_addrs encode_addrs
    end_name filled resolve_pod_name_from_link extra has_node delete_rows
filled_from_peer = refl

abbrev other_row : LinkRows
other_row = ((("c", "ns"), ("a-0", "eth1")), mtu_row "b-0" "eth1" (pos 1400)) ∷ []

load_link_attributes-save_link_attributes_example :
    (lookup (end_name (resolve_pod_name_from_link "host" lab) "eth1") (
        load_link_attributes
          (λ raw. some (raw ∷ []))
          "c"
          "ns"
          (save_link_attributes one_text "c" "ns" (uplink ∷ []) lab other_row)
          [])
      ≡ some (attrs_of uplink))
    × (lookup (end_name (peer_of uplink lab) "eth2") (
          load_link_attributes
            (λ raw. some (raw ∷ []))
            "c"
            "ns"
            (save_link_attributes one_text "c" "ns" (uplink ∷ []) lab other_row)
            [])
        ≡ some (swapped (attrs_of uplink)))
unfolding attrs_of attrs_empty has_shaping nothing_in row_of peer_of end_name mtu_row
    resolve_pod_name_from_link extra has_node
load_link_attributes-save_link_attributes_example =
    load_link_attributes-save_link_attributes one_text (λ raw. some (raw ∷ [])) "c" "ns" uplink lab
      other_row (refl, refl) tt refl refl refl (refl, tt) (refl, tt)
