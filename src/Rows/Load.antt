-- ===== src/Rows/Load.antt =====
-- The attributes of a link from the table link_attributes, from either of its ends: SaveLinkAttributes
-- and LoadLinkAttributes of backend/helpers/link_attributes.go.
use kubendt.Prelude.{
  String, Bool, true, false, Option, some, List, [], ◌∷◌, ◌≡◌, refl, ap, ◌∙◌, arith, All, ◌&&◌,
  ◌||◌, not, Table, lookup, put, lookup-put, is_empty, ◌==◌, string_eq, pair_eq, if◌then◌else◌,
  Bool-cases, inl, inr, eq_iff, beq_refl, pair_beq_iff, contains, keys, Distinct,
}
use kubendt.Types.{NodeSpec, LinkSpec}
use kubendt.Types.Addresses.{extra}
use kubendt.Names.{external_node_name, resolve_pod_name_from_link}
use kubendt.Attributes.{LinkAttrs, attrs_of, attrs_empty, swapped}
use kubendt.Rows.{
  RowKey, LinkRow, LinkRows, encode_addrs, decode_addrs, row_key, row_of, peer_of,
  save_link_attributes, end_name, attrs_of_row, load_link_attributes,
}

-- json.Unmarshal gives back a list from its json.Marshal, whose text is not empty; an empty list needs
-- no text.
abbrev pub Carries : (List String → String) → (String → Option (List String)) → List String → Type 0
Carries marshal unmarshal [] = Unit
Carries marshal unmarshal (a ∷ addrs) =
    (unmarshal (marshal (a ∷ addrs)) ≡ some (a ∷ addrs)) × (is_empty (marshal (a ∷ addrs)) ≡ false)

-- No end of a row has that name.
abbrev pub clear_of : String → RowKey → LinkRow → Bool
clear_of name k r =
    not (end_name k.1.0 k.1.1 == name)
    && (r.peer_node == external_node_name || not (end_name r.peer_node r.peer_intf == name))

module _ (marshal : List String → String) (unmarshal : String → Option (List String)) where
  decode_addrs-encode_addrs :
      (addrs : List String)
      → Carries marshal unmarshal addrs
      → decode_addrs unmarshal (encode_addrs marshal addrs) ≡ addrs
  unfolding decode_addrs encode_addrs
  decode_addrs-encode_addrs [] h = refl
  decode_addrs-encode_addrs (a ∷ addrs) (back, text) = rw text (rw back refl)

  attrs_of_row-row_of :
      (l : LinkSpec) (nodes : List NodeSpec)
      → Carries marshal unmarshal (extra l.local_ip)
      → Carries marshal unmarshal (extra l.peer_ip)
      → attrs_of_row unmarshal (row_of marshal l nodes) ≡ attrs_of l
  unfolding attrs_of_row row_of attrs_of
  attrs_of_row-row_of l nodes local peer =
      rw
        (
          decode_addrs-encode_addrs (extra l.local_ip) local,
          decode_addrs-encode_addrs (extra l.peer_ip) peer,
        )
        refl

or_second : {a b : Bool} → a ≡ false → (a || b) ≡ true → b ≡ true
or_second {a = true} h k = cc
or_second {a = false} h k = k

both_of : (a b : Bool) → (a && b) ≡ true → (a ≡ true) × (b ≡ true)
both_of true b h = (refl, h)
both_of false b h = cc

module _ (unmarshal : String → Option (List String)) (cluster namespace : String) where
  -- The map with the two ends of a row of the namespace.
  abbrev row_into : RowKey → LinkRow → Table String LinkAttrs → Table String LinkAttrs
  row_into k r out =
      let a = attrs_of_row unmarshal r in
      let mine = put (end_name k.1.0 k.1.1) a out in
      let both =
        if r.peer_node == external_node_name
        then mine
        else put (end_name r.peer_node r.peer_intf) (swapped a) mine in
      if k.0 == (cluster, namespace) then both else out

  abbrev is_clear : String → RowKey → LinkRow → Bool
  is_clear name k r = not (k.0 == (cluster, namespace)) || clear_of name k r

  lookup-row_into :
      (name : String) (k : RowKey) (r : LinkRow) (out : Table String LinkAttrs)
      → is_clear name k r ≡ true
      → lookup name (row_into k r out) ≡ lookup name out
  lookup-row_into name k r out h =
      let a = attrs_of_row unmarshal r in
      let own = end_name k.1.0 k.1.1 in
      let other = end_name r.peer_node r.peer_intf in
      ground
        (arith, h, lookup-put own name a out, lookup-put other name (swapped a) (put own a out))

  -- A name that no row of the namespace ends on keeps what it had.
  load_clear :
      (name : String) (rows : LinkRows) (out : Table String LinkAttrs)
      → All (λ (e : RowKey × LinkRow). is_clear name e.0 e.1 ≡ true) rows
      → lookup name (load_link_attributes unmarshal cluster namespace rows out) ≡ lookup name out
  unfolding load_link_attributes
  load_clear name [] out h = refl
  load_clear name ((k, r) ∷ rows) out h =
      load_clear name rows (row_into k r out) h.1 ∙ lookup-row_into name k r out h.0

  module _ (node intf : String) (r : LinkRow) where
    abbrev pub saved_key : RowKey
    saved_key = ((cluster, namespace), (node, intf))

    -- The other rows end on neither end of this one.
    abbrev pub Apart : LinkRows → Type 0
    Apart = All (λ (e : RowKey × LinkRow).
        (e.0 == saved_key
          || (is_clear (end_name node intf) e.0 e.1
              && is_clear (end_name r.peer_node r.peer_intf) e.0 e.1))
        ≡ true)

    abbrev Found : Table String LinkAttrs → Type 0
    Found found =
        (lookup (end_name node intf) found ≡ some (attrs_of_row unmarshal r))
        × (lookup (end_name r.peer_node r.peer_intf) found
            ≡ some (swapped (attrs_of_row unmarshal r)))

    row_into-Found :
        (out : Table String LinkAttrs)
        → (r.peer_node == external_node_name) ≡ false
        → (end_name node intf == end_name r.peer_node r.peer_intf) ≡ false
        → Found (row_into saved_key r out)
    row_into-Found out inside two =
        let a = attrs_of_row unmarshal r in
        let own = end_name node intf in
        let other = end_name r.peer_node r.peer_intf in
        (
          ground (
            arith,
            beq_refl cluster,
            beq_refl namespace,
            inside,
            two,
            eq_iff own other,
            eq_iff other own,
            eq_iff own own,
            lookup-put own own a out,
            lookup-put other own (swapped a) (put own a out),
          ),
          ground (
            arith,
            beq_refl cluster,
            beq_refl namespace,
            inside,
            two,
            eq_iff other other,
            lookup-put other other (swapped a) (put own a out),
          ),
        )

    others_clear :
        (rows : LinkRows)
        → contains (keys rows) saved_key ≡ false
        → Apart rows
        → All (λ (e : RowKey × LinkRow). is_clear (end_name node intf) e.0 e.1 ≡ true) rows
          × All
              (λ (e : RowKey × LinkRow). is_clear (end_name r.peer_node r.peer_intf) e.0 e.1 ≡ true)
              rows
    others_clear [] new h = (tt, tt)
    others_clear ((k, s) ∷ rows) new h =
        let not_it : (k == saved_key) ≡ false = ground (arith, new) in
        let fresh : contains (keys rows) saved_key ≡ false = ground (arith, new) in
        let (a, b) = others_clear rows fresh h.1 in
        let both : (is_clear (end_name node intf) k s
              && is_clear (end_name r.peer_node r.peer_intf) k s)
            ≡ true =
          or_second not_it h.0 in
        let (x, y) = both_of (is_clear (end_name node intf) k s) _ both in ((x, a), (y, b))

    load-put :
        (rows : LinkRows) (out : Table String LinkAttrs)
        → (r.peer_node == external_node_name) ≡ false
        → (end_name node intf == end_name r.peer_node r.peer_intf) ≡ false
        → Distinct (keys rows)
        → Apart rows
        → Found (load_link_attributes unmarshal cluster namespace (put saved_key r rows) out)
    unfolding load_link_attributes
    load-put [] out inside two d h = row_into-Found out inside two
    load-put ((k, s) ∷ rows) out inside two (new, d) h = elim (Bool-cases (k == saved_key)) [
      | inl e ↦
          let same : k ≡ saved_key = ((pair_beq_iff k saved_key).0 e) in
          let (a, b) = others_clear rows (rw same at new) h.1 in
          let now = row_into saved_key r out in
          let (own, other) = row_into-Found out inside two in
          rw e (
            load_clear (end_name node intf) rows now a ∙ own,
            load_clear (end_name r.peer_node r.peer_intf) rows now b ∙ other,
          )
      | inr e ↦ rw e (load-put rows (row_into k s out) inside two d h.1)
    ]

-- A link to a pod that declares an attribute is found, once it is saved, under the names of both of
-- its ends: as it was declared under its own end's, and with the extra addresses swapped under its
-- peer's. The two names are different, no other row of the namespace ends on either, the table has
-- no key twice, and the codec gives the extra addresses of both ends back from their text.
pub load_link_attributes-save_link_attributes :
    (marshal : List String → String) (unmarshal : String → Option (List String))
    (cluster namespace : String) (l : LinkSpec) (nodes : List NodeSpec) (rows : LinkRows)
    → let pod = resolve_pod_name_from_link l.node nodes in
      let peer = peer_of l nodes in
      let saved = save_link_attributes marshal cluster namespace (l ∷ []) nodes rows in
      let found = load_link_attributes unmarshal cluster namespace saved [] in
      Carries marshal unmarshal (extra l.local_ip)
      → Carries marshal unmarshal (extra l.peer_ip)
      → attrs_empty (attrs_of l) ≡ false
      → (peer == external_node_name) ≡ false
      → (end_name pod l.local_intf == end_name peer l.peer_intf) ≡ false
      → Distinct (keys rows)
      → Apart unmarshal cluster namespace pod l.local_intf (row_of marshal l nodes) rows
      → (lookup (end_name pod l.local_intf) found ≡ some (attrs_of l))
        × (lookup (end_name peer l.peer_intf) found ≡ some (swapped (attrs_of l)))
unfolding save_link_attributes row_key row_of
load_link_attributes-save_link_attributes marshal unmarshal cluster namespace l nodes rows local
      other_end declared inside two d apart =
    let r = row_of marshal l nodes in
    let pod = resolve_pod_name_from_link l.node nodes in
    let (own, other) =
      load-put unmarshal cluster namespace pod l.local_intf r rows [] inside two d apart in
    let same = attrs_of_row-row_of marshal unmarshal l nodes local other_end in
    rw (save_link_attributes, declared)
      (own ∙ ap some same, other ∙ ap (λ a. some (swapped a)) same)
