-- ===== src/ExternalLabels/Consistency.antt =====
-- Labels and interfaces of uplinks stay one to one.
use kubendt.Prelude.{
  ℕ, suc, String, ◌≡◌, ◌↔◌, refl, sym, ◌∙◌, Bool, true, false, Bool-cases, Option, none, some,
  Option-cases, inl, inr, List, [], ◌∷◌, ◌||◌, ◌&&◌, ◌==◌, ◌!=◌, string_eq, if◌then◌else◌, lookup,
  lookup-put, is_empty, Result, ok, err, arith,
}
use kubendt.Types.{LinkSpec}
use kubendt.Topologies.{Entry}
use kubendt.ExternalLabels.{
  extract_external_side, LabelMaps, bind, build_namespace_external_label_maps, no_labels,
  LabelError, already_labelled, already_bound, other, check_label, check_links,
  validate_external_label_consistency,
}

abbrev Binding : Type 0
Binding = String × String

-- The interfaces that links label, with their labels.
abbrev pub bindings : List LinkSpec → List Binding
bindings [] = []
bindings (link ∷ links) = elim (extract_external_side link) [
  | none ↦ bindings links
  | some b ↦ if is_empty b.0 || is_empty b.1 then bindings links else b ∷ bindings links
]

-- One interface has one label, and one label one interface.
abbrev agree : Binding → Binding → Bool
agree (i, l) (j, m) = if i == j then l == m else l != m

abbrev holds : Option String → String → Bool
holds none v = true
holds (some w) v = w == v

abbrev fits : LabelMaps → Binding → Bool
fits maps (i, l) = holds (lookup i maps.label_by_intf) l && holds (lookup l maps.intf_by_label) i

abbrev all_bindings : (Binding → Bool) → List Binding → Bool
all_bindings p [] = true
all_bindings p (b ∷ bs) = p b && all_bindings p bs

abbrev pairwise : List Binding → Bool
pairwise [] = true
pairwise (b ∷ bs) = all_bindings (agree b) bs && pairwise bs

-- The bindings fit the maps, and every two of them agree.
abbrev pub consistent : LabelMaps → List Binding → Bool
consistent maps bs = all_bindings (fits maps) bs && pairwise bs

fits-bind :
    (maps : LabelMaps) (i l : String) (b : Binding)
    → fits maps (i, l) ≡ true
    → fits (bind i l maps) b ≡ (fits maps b && agree (i, l) b)
unfolding bind
fits-bind maps i l (j, m) h = ground (
  arith,
  h,
  lookup-put i j l maps.label_by_intf,
  lookup-put l m i maps.intf_by_label,
  string_eq.beq_iff i j,
  string_eq.beq_iff l m,
  string_eq.beq_iff j i,
)

all-bind :
    (maps : LabelMaps) (i l : String) (bs : List Binding)
    → fits maps (i, l) ≡ true
    → all_bindings (fits (bind i l maps)) bs
      ≡ (all_bindings (fits maps) bs && all_bindings (agree (i, l)) bs)
all-bind maps i l [] h = refl
all-bind maps i l (b ∷ bs) h = ground (arith, h, fits-bind maps i l b h, all-bind maps i l bs h)

other-holds : (o : Option String) (v : String) → holds o v ≡ true → other o v ≡ none
unfolding other
other-holds none v h = refl
other-holds (some w) v h = ground (arith, h)

other-fails :
    (o : Option String) (v : String) → holds o v ≡ false → (w : String) × (other o v ≡ some w)
unfolding other
other-fails none v h = absurd (ground (arith, h))
other-fails (some w) v h = (w, ground (arith, h))

check_label-fits :
    (n : ℕ) (i l : String) (maps : LabelMaps)
    → fits maps (i, l) ≡ true
    → check_label n i l maps ≡ ok (bind i l maps)
unfolding check_label
check_label-fits n i l maps h =
    let a = other-holds (lookup i maps.label_by_intf) l (ground (arith, h)) in
    let b = other-holds (lookup l maps.intf_by_label) i (ground (arith, h)) in
    rw (check_label, a, b) refl

check_label-unfit :
    (n : ℕ) (i l : String) (maps : LabelMaps)
    → fits maps (i, l) ≡ false
    → (e : LabelError) × (check_label n i l maps ≡ err e)
unfolding check_label
check_label-unfit n i l maps h = elim (Bool-cases (holds (lookup i maps.label_by_intf) l)) [
  | inr a ↦
      let (w, e) = other-fails (lookup i maps.label_by_intf) l a in
      (already_labelled n w, rw (check_label, e) refl)
  | inl a ↦
      let (w, e) = other-fails (lookup l maps.intf_by_label) i (ground (arith, h, a)) in
      (already_bound n w, rw (check_label, other-holds (lookup i maps.label_by_intf) l a, e) refl)
]

is_ok : {A : Type 0} → Result LabelError A → Bool
is_ok (ok a) = true
is_ok (err e) = false

is_ok_iff : (r : Result LabelError Unit) → (r ≡ ok tt) ↔ (is_ok r ≡ true)
unfolding is_ok
is_ok_iff (ok tt) = (λ h. refl, λ h. refl)
is_ok_iff (err e) = (λ h. absurd (ground (arith, h)), λ h. absurd (ground (arith, h)))

check_links-consistent :
    (n : ℕ) (links : List LinkSpec) (maps : LabelMaps)
    → is_ok (check_links n links maps) ≡ consistent maps (bindings links)
unfolding check_links is_ok
check_links-consistent n [] maps = refl
check_links-consistent n (link ∷ links) maps = elim (Option-cases (extract_external_side link)) [
  | inl e ↦ rw (check_links, bindings, e) (check_links-consistent (suc n) links maps)
  | inr ((i, l), e) ↦ elim (Bool-cases (is_empty i || is_empty l)) [
    | inl blank ↦ rw (check_links, bindings, e, blank) (check_links-consistent (suc n) links maps)
    | inr named ↦ elim (Bool-cases (fits maps (i, l))) [
      | inl f ↦
          let rest = check_links-consistent (suc n) links (bind i l maps) in
          let split = all-bind maps i l (bindings links) f in
          rw (check_links, bindings, e, named, check_label-fits n i l maps f)
            (ground (arith, f, rest, split))
      | inr f ↦
          let (failed, out) = check_label-unfit n i l maps f in
          rw (check_links, bindings, e, named, out) (ground (arith, f))
    ]
  ]
]

-- A request passes exactly if the label that each of its uplinks gives its host interface fits what
-- the namespace's objects say of that interface and of that label, and any two of its labelled
-- uplinks have the same interface exactly if they have the same label.
pub validate_external_label_consistency_iff :
    (topologies : List (String × List Entry)) (links : List LinkSpec)
    → (validate_external_label_consistency topologies links ≡ ok tt) ↔ (
        consistent (build_namespace_external_label_maps topologies no_labels) (bindings links)
        ≡ true)
unfolding validate_external_label_consistency
validate_external_label_consistency_iff topologies links =
    let maps = build_namespace_external_label_maps topologies no_labels in
    let decided = check_links-consistent 0 links maps in
    let passed = is_ok_iff (check_links 0 links maps) in
    (λ h. sym decided ∙ passed.0 h, λ h. passed.1 (decided ∙ h))
