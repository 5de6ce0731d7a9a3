-- ===== src/Paths/Tree.antt =====
-- The map `prev` of a search as a tree of walks from the source, each pod at its depth.
use kubendt.Prelude.{
  ℕ, zero, suc, ◌+◌, ◌<◌, String, ◌≡◌, ◌≢◌, refl, sym, ap, ◌∙◌, ◌⊎◌, inl, inr, Bool, true, false,
  Bool-cases, some, List, [], ◌∷◌, if◌then◌else◌, ◌==◌, ◌||◌, string_eq, Table, put, length,
  lookup-put, beq_refl, arith,
}
use kubendt.Paths.{seen, parent, walk_back}
use kubendt.Paths.Walks.{IsWalk}

abbrev pub Depth : Type 0
Depth = String → ℕ

abbrev pub deepen : String → ℕ → Depth → Depth
deepen nb n d v = if nb == v then n else d v

pub seen-put :
    (nb cur v : String) (prev : Table String String)
    → seen (put nb cur prev) v ≡ (nb == v || seen prev v)
seen-put nb cur v prev = ground (arith, lookup-put nb v cur prev)

pub seen-put_cases :
    (nb cur v : String) (prev : Table String String)
    → seen (put nb cur prev) v ≡ true
    → (nb ≡ v) ⊎ (seen prev v ≡ true)
seen-put_cases nb cur v prev h = elim (Bool-cases (nb == v)) [
  | inl e ↦ inl ((string_eq.beq_iff nb v).0 e)
  | inr e ↦ inr (ground (arith, h, e, seen-put nb cur v prev))
]

parent-put :
    (nb cur v : String) (prev : Table String String)
    → parent (put nb cur prev) v ≡ (if nb == v then cur else parent prev v)
parent-put nb cur v prev = ground (arith, lookup-put nb v cur prev)

pub length-put :
    (nb cur : String) (prev : Table String String)
    → seen prev nb ≡ false
    → length (put nb cur prev) ≡ suc (length prev)
length-put nb cur [] h = refl
length-put nb cur ((j, w) ∷ prev) h = elim (Bool-cases (j == nb)) [
  | inl e ↦ absurd (ground (arith, h, e))
  | inr e ↦ rw e (ap suc (length-put nb cur prev (rw e at h)))
]

-- The depth of a pod that was seen before another was entered.
pub deepen_seen :
    (prev : Table String String) (d : Depth) (nb v : String) (n : ℕ)
    → seen prev nb ≡ false
    → seen prev v ≡ true
    → deepen nb n d v ≡ d v
deepen_seen prev d nb v n new h = elim (Bool-cases (nb == v)) [
  | inl e ↦ absurd (ground (arith, new, h, (string_eq.beq_iff nb v).0 e))
  | inr e ↦ rw e
]

abbrev Up : (String → String → Bool) → String → Table String String → Depth → String → Type 0
Up joined src prev d v =
    ((v ≡ src) × (d v ≡ 0))
    ⊎ ((seen prev (parent prev v) ≡ true)
        × (joined (parent prev v) v ≡ true)
        × (d v ≡ suc (d (parent prev v))))

pub record IsTree (joined : String → String → Bool) (src : String) (prev : Table String String)
    (d : Depth) : Type 0 where
  pub start : seen prev src ≡ true
  pub root : parent prev src ≡ ""
  pub no_blank : seen prev "" ≡ false
  pub up : (v : String) → seen prev v ≡ true → Up joined src prev d v
  pub shallow : (v : String) → seen prev v ≡ true → d v < length prev

module _ (joined : String → String → Bool) (src : String) where
  Up-new :
      (prev : Table String String) (d : Depth) (cur nb : String)
      → seen prev cur ≡ true
      → seen prev nb ≡ false
      → joined cur nb ≡ true
      → Up joined src (put nb cur prev) (deepen nb (suc (d cur)) d) nb
  Up-new prev d cur nb c new j =
      let below : parent (put nb cur prev) nb ≡ cur = rw (parent-put nb cur nb prev, beq_refl nb) in
      inr (
        rw below (ground (arith, seen-put nb cur cur prev, c)),
        rw below j,
        rw (below, beq_refl nb, deepen_seen prev d nb cur (suc (d cur)) new c),
      )

  Up-old :
      (prev : Table String String) (d : Depth) (cur nb v : String)
      → seen prev nb ≡ false
      → seen prev v ≡ true
      → Up joined src prev d v
      → Up joined src (put nb cur prev) (deepen nb (suc (d cur)) d) v
  Up-old prev d cur nb v new h u =
      let other : (nb == v) ≡ false = ground (arith, new, h, string_eq.beq_iff nb v) in
      let same : parent (put nb cur prev) v ≡ parent prev v =
        rw (parent-put nb cur v prev, other) in
      elim u [
        | inl (at, top) ↦ inl (at, deepen_seen prev d nb v (suc (d cur)) new h ∙ top)
        | inr (s, j, deep) ↦ inr (
          rw same (ground (arith, seen-put nb cur (parent prev v) prev, s)),
          rw same j,
          rw same (
              deepen_seen prev d nb v (suc (d cur)) new h
              ∙ deep
              ∙ sym (ap suc (deepen_seen prev d nb (parent prev v) (suc (d cur)) new s))),
        )
      ]

  pub IsTree-put :
      (prev : Table String String) (d : Depth) (cur nb : String)
      → IsTree joined src prev d
      → seen prev cur ≡ true
      → seen prev nb ≡ false
      → joined cur nb ≡ true
      → nb ≢ ""
      → IsTree joined src (put nb cur prev) (deepen nb (suc (d cur)) d)
  IsTree-put prev d cur nb t c new j named = record {
    start = ground (arith, seen-put nb cur src prev, t.start);
    root =
        ground (arith, lookup-put nb src cur prev, t.start, t.root, new, string_eq.beq_iff nb src);
    no_blank = ground (arith, seen-put nb cur "" prev, t.no_blank, named, string_eq.beq_iff nb "");
    up = λ v h. elim (Bool-cases (nb == v)) [
      | inl e ↦ rw (sym ((string_eq.beq_iff nb v).0 e)) (Up-new prev d cur nb c new j)
      | inr e ↦
          let before : seen prev v ≡ true = ground (arith, h, e, seen-put nb cur v prev) in
          Up-old prev d cur nb v new before (t.up v before)
    ];
    shallow = λ v h. ground (
      arith,
      h,
      seen-put nb cur v prev,
      length-put nb cur prev new,
      t.shallow v,
      t.shallow cur c,
    );
  }

  walk_back_blank :
      (prev : Table String String) (fuel : ℕ) (path : List String)
      → walk_back fuel prev "" path ≡ some path
  unfolding walk_back
  walk_back_blank prev zero path = refl
  walk_back_blank prev (suc fuel) path = refl

  pub walk_back-tree :
      (prev : Table String String) (d : Depth) (fuel : ℕ) (v dst : String) (path : List String)
      → IsTree joined src prev d
      → seen prev v ≡ true
      → d v < fuel
      → IsWalk joined v (v ∷ path) dst
      → (out : List String) × (walk_back fuel prev v path ≡ some out)
        × IsWalk joined src out dst
        × (length out ≡ suc (d v + length path))
  unfolding walk_back
  walk_back-tree prev d zero v dst path t s h w = absurd (omega arith)
  walk_back-tree prev d (suc fuel) v dst path t s h w =
      let named : (v == "") ≡ false = ground (arith, s, t.no_blank, string_eq.beq_iff v "") in
      elim (t.up v s) [
        | inl (at, zero_deep) ↦ (
          v ∷ path,
          rw (walk_back, named, at, t.root) (walk_back_blank prev fuel (src ∷ path)),
          rw (sym at) w,
          omega (arith),
        )
        | inr (s', j, deeper) ↦
            let (out, runs, walk, long) =
              walk_back-tree prev d fuel (parent prev v) dst (v ∷ path) t s' (omega arith)
                (refl, j, w) in
            (out, rw (walk_back, named) runs, walk, omega arith)
      ]
