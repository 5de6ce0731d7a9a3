-- ===== src/LinkUid.antt =====
-- The identifiers of links: backend/helpers/network_uids.go. The registry's rows come from the
-- database and the random numbers from Go's source of them, so both are arguments.
pub mod Generate
pub mod Explicit
pub mod Prepare
pub mod Registry
mod Samples
use kubendt.Prelude.{
  ℕ, zero, suc, ◌+◌, String, Bool, true, false, Option, none, some, is_some, List, [], ◌∷◌, ◌||◌, ℤ,
  pos, ltb_ℤ, Table, lookup, put, int_eq, if◌then◌else◌, Result, ok, err, ◌>>=◌, ◌>>◌, refuse,
}
use kubendt.Types.{LinkSpec}

abbrev pub min_link_uid : ℕ
min_link_uid = 1_000_000

abbrev pub max_link_uid : ℕ
max_link_uid = 9_999_999

abbrev pub max_link_uid_random_tries : ℕ
max_link_uid_random_tries = 256

-- maxLinkUID-minLinkUID+1
abbrev pub uid_count : ℕ
uid_count = 9_000_000

pub record LinkUidOwner : Type 0 where
  pub namespace : String
  pub node : String
  pub interface : String
  pub peer_node : String
  pub peer_interface : String
  pub uid : ℤ

abbrev pub Owners : Type 0
Owners = Table ℤ LinkUidOwner

pub data UidError : Type 0 where
  registry_unreadable : UidError
  out_of_range : ℕ → ℤ → UidError
  already_in_use : LinkUidOwner → LinkUidOwner → UidError
  no_free_uid : UidError

-- The loop over the registry's rows; the first owner of an identifier is kept.
unfoldable pub registered_link_uids : List LinkUidOwner → Owners → Owners
registered_link_uids [] used = used
registered_link_uids (owner ∷ rows) used =
    registered_link_uids rows
      (elim (lookup owner.uid used) [ none ↦ put owner.uid owner used | some _ ↦ used ])

unfoldable pub link_uid_owner_from_spec : String → LinkSpec → LinkUidOwner
link_uid_owner_from_spec namespace link = record {
  namespace = namespace;
  node = link.node;
  interface = link.local_intf;
  peer_node = link.peer_node;
  peer_interface = link.peer_intf;
  uid = elim link.uid [ none ↦ pos 0 | some uid ↦ uid ];
}

unfoldable pub taken : Owners → Owners → ℕ → Bool
taken used reserved candidate =
    is_some (lookup (pos candidate) used) || is_some (lookup (pos candidate) reserved)

-- The tries with random candidates: what was found, and how many numbers were drawn by then.
unfoldable pub try_random : (ℕ → ℕ) → Owners → Owners → ℕ → ℕ → Option ℕ × ℕ
try_random draws used reserved zero at = (none, at)
try_random draws used reserved (suc tries) at =
    let candidate = draws at + min_link_uid in
    let rest = try_random draws used reserved tries (suc at) in
    if taken used reserved candidate then rest else (some candidate, suc at)

-- The scan of `left` candidates in ascending order.
unfoldable pub scan_free : Owners → Owners → ℕ → ℕ → Option ℕ
scan_free used reserved zero candidate = none
scan_free used reserved (suc left) candidate =
    let rest = scan_free used reserved left (suc candidate) in
    if taken used reserved candidate then rest else some candidate

unfoldable pub generate_available_link_uid : (ℕ → ℕ) → Owners → Owners → ℕ → Result UidError ℤ × ℕ
generate_available_link_uid draws used reserved at =
    let (found, at') = try_random draws used reserved max_link_uid_random_tries at in
    elim found [
      | some candidate ↦ (ok (pos candidate), at')
      | none ↦ elim (scan_free used reserved uid_count min_link_uid) [
        | some candidate ↦ (ok (pos candidate), at')
        | none ↦ (err no_free_uid, at')
      ]
    ]

-- The first loop: the identifiers that the request names, reserved in turn; `i` is the link's index.
unfoldable pub reserve_explicit :
    String → Owners → List LinkSpec → ℕ → Owners → Result UidError Owners
reserve_explicit namespace used [] i reserved = ok reserved
reserve_explicit namespace used (link ∷ links) i reserved = elim link.uid [
  | none ↦ reserve_explicit namespace used links (suc i) reserved
  | some uid ↦
      let owner = link_uid_owner_from_spec namespace link in
      if ltb_ℤ uid (pos min_link_uid) || ltb_ℤ (pos max_link_uid) uid
      then err (out_of_range i uid)
      else elim (lookup uid reserved) [
        | some existing ↦ err (already_in_use owner existing)
        | none ↦ elim (lookup uid used) [
          | some existing ↦ err (already_in_use owner existing)
          | none ↦ reserve_explicit namespace used links (suc i) (put uid owner reserved)
        ]
      ]
]

-- The second loop: an identifier for each link that has none.
unfoldable pub assign_missing :
    String → (ℕ → ℕ) → Owners → List LinkSpec → Owners → ℕ → Result UidError (List LinkSpec)
assign_missing namespace draws used [] reserved at = ok []
assign_missing namespace draws used (link ∷ links) reserved at = elim link.uid [
  | some _ ↦ do rest ← assign_missing namespace draws used links reserved at; ok (link ∷ rest)
  | none ↦
      let (generated, at') = generate_available_link_uid draws used reserved at in
      do
        uid ← generated
        let owner = record (link_uid_owner_from_spec namespace link) { uid = uid }
        rest ← assign_missing namespace draws used links (put uid owner reserved) at'
        ok (record link { uid = some uid } ∷ rest)
]

-- The registry is what the query returned, or its failure.
unfoldable pub prepare_unique_link_uids :
    String
    → Result UidError (List LinkUidOwner)
    → (ℕ → ℕ)
    → List LinkSpec
    → Result UidError (List LinkSpec)
prepare_unique_link_uids namespace registry draws links = do
  rows ← registry
  let used = registered_link_uids rows []
  reserved ← reserve_explicit namespace used links 0 []
  assign_missing namespace draws used links reserved 0
