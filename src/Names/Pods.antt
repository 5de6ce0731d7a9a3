-- ===== src/Names/Pods.antt =====
-- Pod names and their parts: SplitIndexedPodName, ConvertToNodeNameIfSingleReplica and the names
-- at the boundary of Meshnet's objects.
use kubendt.Prelude.{
  ℕ, ◌<◌, ◌^◌, String, ◌≡◌, ◌≢◌, false, some, pos, is_empty, is_empty-show, cut_last_dash-append,
  cut_last_dash-show, atoi-show, all_digit_chars-show, codes, contains, eq_iff, ◌==◌, string_eq,
  nat_eq, int_eq, show_int, show, Bool-cases, inl, inr, sym, beq_ne,
}
use kubendt.Names.{
  external_node_name, crd_external_peer_pod, to_crd_peer_pod, from_crd_peer_pod, pod_name,
  split_indexed_pod_name, match_indexed_pod,
}

-- The name printed for replica i of a node splits into that node and that index, for every index
-- that an int holds and every node name that is not empty, dashes included.
pub split_indexed_pod_name-pod_name :
    (base : String) (i : ℕ)
    → is_empty base ≡ false
    → i < 2 ^ 63
    → split_indexed_pod_name (pod_name base (pos i)) ≡ some (base, pos i)
unfolding split_indexed_pod_name pod_name show_int
split_indexed_pod_name-pod_name base i h k =
    rw (cut_last_dash-append base _ (cut_last_dash-show i), split_indexed_pod_name)
      (rw (h, is_empty-show i) (rw (atoi-show i k)))

pub match_indexed_pod-pod_name :
    (base : String) (i : ℕ)
    → is_empty base ≡ false
    → contains (codes base) 10 ≡ false
    → match_indexed_pod (pod_name base (pos i)) ≡ some (base, show i)
unfolding match_indexed_pod pod_name show_int
match_indexed_pod-pod_name base i h k =
    rw (cut_last_dash-append base _ (cut_last_dash-show i), match_indexed_pod)
      (rw (h, k, is_empty-show i) (rw (all_digit_chars-show i)))

-- A name goes to a Topology object and back unchanged, unless it is Meshnet's own "localhost", and
-- a peer of a Topology object comes to the API and back unchanged, unless it is called "external".
pub crd_peer_pod_round_trip :
    (name : String)
    → (name ≢ crd_external_peer_pod → from_crd_peer_pod (to_crd_peer_pod name) ≡ name)
      × (name ≢ external_node_name → to_crd_peer_pod (from_crd_peer_pod name) ≡ name)
unfolding to_crd_peer_pod from_crd_peer_pod
crd_peer_pod_round_trip name = (
  λ h. elim (Bool-cases (name == external_node_name)) [
    | inl e ↦ rw e (sym ((eq_iff name external_node_name).0 e))
    | inr e ↦ rw (e, beq_ne name crd_external_peer_pod h)
  ],
  λ h. elim (Bool-cases (name == crd_external_peer_pod)) [
    | inl e ↦ rw e (sym ((eq_iff name crd_external_peer_pod).0 e))
    | inr e ↦ rw (e, beq_ne name external_node_name h)
  ],
)
