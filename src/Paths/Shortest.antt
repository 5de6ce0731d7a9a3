-- ===== src/Paths/Shortest.antt =====
-- The search ends, and its path is a shortest one.
use kubendt.Prelude.{
  ℕ, zero, suc, ◌+◌, ◌≤◌, String, ◌≡◌, ◌≢◌, refl, sym, ap, ◌⊎◌, inl, inr, Bool, true, false,
  Bool-cases, List, [], ◌∷◌, ◌==◌, string_eq, Table, put, length, contains, length-append, beq_refl,
  beq_ne, leb, leb→le, arith,
}
use kubendt.Paths.{
  Adjacency, neighbours, Search, seen, arrived, passed, queue_neighbour, scan, route_back, search,
  names, bfs_path,
}
use kubendt.Paths.Walks.{IsWalk, IsShortestRoute}
use kubendt.Paths.Tree.{Depth, deepen, deepen_seen, seen-put, IsTree, IsTree-put, walk_back-tree}
use kubendt.Paths.Frontier.{Inv, Scanning, Scanning-seen, Scanning-new, no_near}
use kubendt.Paths.Left.{left, left-put, left-le, contains-names, walk_long}

module _ (adj : Adjacency) (src dst : String) where
  abbrev joined : String → String → Bool
  joined a b = contains (neighbours adj a) b

  abbrev Far : ℕ → Type 0
  Far n = (other : List String) → IsWalk joined src other dst → suc (suc n) ≤ length other

  abbrev work : Search → ℕ
  work s = left s.prev (names adj) + length s.queue

  abbrev Arrives : String → Table String String → Type 0
  Arrives cur prev =
      (d : Depth) × IsTree joined src prev d
      × (seen prev cur ≡ true)
      × (joined cur dst ≡ true)
      × Far (d cur)

  abbrev Passes : String → ℕ → Search → Type 0
  Passes cur n t = (d : Depth) × Scanning joined src dst cur [] d t × (work t ≤ n)

  src_depth : (prev : Table String String) (d : Depth) → IsTree joined src prev d → d src ≡ 0
  src_depth prev d t = elim (t.up src t.start) [
    | inl (same, top) ↦ top
    | inr (s, j, deep) ↦ ground (arith, s, t.root, t.no_blank)
  ]

  far : (m n : ℕ) → (m ≤ suc n → ⊥) → suc (suc n) ≤ m
  far m n h = elim (Bool-cases (leb m (suc n))) [
    | inl e ↦ absurd (h (leb→le m (suc n) e))
    | inr e ↦ ground (arith, e)
  ]

  Inv-Far :
      (cur : String) (todo : List String) (d : Depth) (s : Search)
      → Scanning joined src dst cur todo d s
      → Far (d cur)
  Inv-Far cur todo d s f other w = far (length other) (d cur) (λ short.
      no_near joined src dst (cur ∷ s.queue) (d cur) d s 0 src other f.inv
        (λ y c. elim (Bool-cases (cur == y)) [
          | inl e ↦ omega (arith, ap d ((string_eq.beq_iff cur y).0 e))
          | inr e ↦ f.inv.above y (ground (arith, c, e))
        ])
        f.inv.tree.start (omega (arith, src_depth s.prev d f.inv.tree)) (omega arith) w)

  module _ (no_blank : (a : String) → joined a "" ≡ false) where
    scan-outcome :
        (cur : String) (todo : List String) (d : Depth) (s : Search)
        → Scanning joined src dst cur todo d s
        → ((w : String) → contains todo w ≡ true → joined cur w ≡ true)
        → ((prev : Table String String) × (scan dst cur todo s ≡ arrived prev) × Arrives cur prev)
          ⊎ ((t : Search) × (scan dst cur todo s ≡ passed t) × Passes cur (work s) t)
    unfolding scan queue_neighbour
    scan-outcome cur [] d s f sub = inr (s, refl, (d, f, omega arith))
    scan-outcome cur (nb ∷ todo) d s f sub =
        let j : joined cur nb ≡ true = sub nb (ground (arith, beq_refl nb)) in
        let sub' : (w : String) → contains todo w ≡ true → joined cur w ≡ true =
          λ w c. sub w (ground (arith, c)) in
        let named : nb ≢ "" = λ e. ground (arith, no_blank cur, j, e) in
        elim (Bool-cases (seen s.prev nb)) [
          | inl e ↦
              rw (scan, e)
                (scan-outcome cur todo d s (Scanning-seen joined src dst cur nb todo d s f e) sub')
          | inr e ↦ elim (Bool-cases (nb == dst)) [
            | inl x ↦ inl (
              put nb cur s.prev,
              rw (scan, e, x) refl,
              (
                deepen nb (suc (d cur)) d,
                IsTree-put joined src s.prev d cur nb f.inv.tree f.entered e j named,
                ground (arith, seen-put nb cur cur s.prev, f.entered),
                rw (sym ((string_eq.beq_iff nb dst).0 x)) j,
                rw (deepen_seen s.prev d nb cur (suc (d cur)) e f.entered)
                    (Inv-Far cur (nb ∷ todo) d s f),
              ),
            )
            | inr x ↦
                let s' = queue_neighbour cur nb s in
                let less : work s' ≤ work s = omega (
                  arith,
                  left-put s.prev cur nb (names adj) e,
                  (left-put s.prev cur nb (names adj) e).1 (contains-names adj cur nb j),
                  length-append s.queue (nb ∷ []),
                ) in
                elim (scan-outcome cur todo (deepen nb (suc (d cur)) d) s'
                  (Scanning-new joined src dst cur nb todo d s f e x j named) sub') [
                    | inl a ↦ inl (rw (scan, e, x) a)
                    | inr (t, runs, (d', f', n)) ↦
                        inr (t, rw (scan, e, x) runs, (d', f', omega arith))
                  ]
          ]
        ]

    route_back-Ends :
        (cur : String) (prev : Table String String)
        → Arrives cur prev
        → IsShortestRoute joined src dst (route_back prev cur dst)
    unfolding route_back
    route_back-Ends cur prev (d, t, c, j, far') =
        let (out, runs, walk, long) =
          walk_back-tree joined src prev d (length prev) cur dst (dst ∷ []) t c (t.shallow cur c)
            (refl, j, (refl, refl)) in
        rw (route_back, runs) (walk, λ other w. omega (arith, long, far' other w))

    no-IsWalk :
        (k : ℕ) (d : Depth) (s : Search) (u : String) (path : List String)
        → Inv joined src dst [] k d s
        → seen s.prev u ≡ true
        → ¬ IsWalk joined u path dst
    no-IsWalk k d s u [] i su w = w
    no-IsWalk k d s u (x ∷ []) i su (xu, xd) = ground (arith, su, i.unseen, xu, xd)
    no-IsWalk k d s u (x ∷ y ∷ path) i su (xu, j, w) = elim (i.closed u su) [
      | inl c ↦ absurd (ground (arith, c))
      | inr h ↦ no-IsWalk k d s y (y ∷ path) i (h y (rw (sym xu) j)).0 w
    ]

    Scanning-next :
        (k : ℕ) (d : Depth) (prev : Table String String) (cur : String) (rest : List String)
        → Inv joined src dst (cur ∷ rest) k d (record { prev = prev; queue = cur ∷ rest })
        → Scanning joined src dst cur (neighbours adj cur) d (record { prev = prev; queue = rest })
    Scanning-next k d prev cur rest i =
        let mine = i.queued cur (ground (arith, beq_refl cur)) in
        record {
          inv = record {
            tree = i.tree;
            unseen = i.unseen;
            queued = λ y c. i.queued y (ground (arith, c));
            above = i.sorted.0;
            sorted = i.sorted.1;
            capped = λ v h. omega (arith, i.capped v h, i.above cur (ground (arith, beq_refl cur)));
            closed = i.closed;
          };
          entered = mine;
          closing = λ w j. inl j;
        }

    Inv-scanned :
        (cur : String) (d : Depth) (t : Search)
        → Scanning joined src dst cur [] d t
        → Inv joined src dst t.queue (d cur) d t
    Inv-scanned cur d t f = record {
      tree = f.inv.tree;
      unseen = f.inv.unseen;
      queued = f.inv.queued;
      above = f.inv.above;
      sorted = f.inv.sorted;
      capped = f.inv.capped;
      closed = λ u h. elim (f.inv.closed u h) [
        | inr c ↦ inr c
        | inl o ↦ elim (Bool-cases (cur == u)) [
          | inr e ↦ inl (ground (arith, o, e))
          | inl e ↦ inr (
              rw (sym ((string_eq.beq_iff cur u).0 e))
                (λ w j. elim (f.closing w j) [ inl c ↦ absurd (ground (arith, c)) | inr c ↦ c ]))
        ]
      ];
    }

    search-Ends :
        (fuel k : ℕ) (d : Depth) (prev : Table String String) (queue : List String)
        → Inv joined src dst queue k d (record { prev = prev; queue = queue })
        → left prev (names adj) + length queue ≤ fuel
        → IsShortestRoute joined src dst
            (search fuel adj dst (record { prev = prev; queue = queue }))
    unfolding search
    search-Ends zero k d prev [] i n = λ other. no-IsWalk k d _ src other i i.tree.start
    search-Ends zero k d prev (cur ∷ rest) i n = absurd (omega arith)
    search-Ends (suc fuel) k d prev [] i n = λ other. no-IsWalk k d _ src other i i.tree.start
    search-Ends (suc fuel) k d prev (cur ∷ rest) i n =
        elim (scan-outcome cur (neighbours adj cur) d (record { prev = prev; queue = rest })
          (Scanning-next k d prev cur rest i) (λ w j. j)) [
            | inl (prev', runs, a) ↦ rw (search, runs) (route_back-Ends cur prev' a)
            | inr (t, runs, (d', f, less)) ↦
                rw (search, runs)
                  (search-Ends fuel (d' cur) d' t.prev t.queue (Inv-scanned cur d' t f)
                    (omega arith))
          ]

    start_Inv :
        src ≢ ""
        → (src == dst) ≡ false
        → Inv joined src dst
            (src ∷ [])
            0
            (λ v. 0)
            (record { prev = (src, "") ∷ []; queue = src ∷ [] })
    start_Inv named other =
        let blank : (src == "") ≡ false = beq_ne src "" named in
        let self : (src == src) ≡ true = beq_refl src in
        record {
          tree = record {
            start = rw self refl;
            root = ground (arith, self);
            no_blank = rw blank refl;
            up = λ v h. inl (sym ((string_eq.beq_iff src v).0 (ground (arith, h))), refl);
            shallow = λ v h. omega arith;
          };
          unseen = rw other refl;
          queued = λ y c. ground (arith, c);
          above = λ y c. omega arith;
          sorted = (λ y c. omega arith, tt);
          capped = λ v h. omega arith;
          closed = λ u h. inl (ground (arith, h));
        }

    pub bfs_path-IsShortestRoute :
        src ≢ "" → dst ≢ "" → IsShortestRoute joined src dst (bfs_path adj src dst)
    unfolding bfs_path
    bfs_path-IsShortestRoute a b =
        let a' = beq_ne src "" a in
        let b' = beq_ne dst "" b in
        elim (Bool-cases (src == dst)) [
          | inl e ↦
              let here : src ≡ dst = (string_eq.beq_iff src dst).0 e in
              rw (bfs_path, a', b', e) ((refl, here), λ other w. walk_long joined src dst other w)
          | inr e ↦
              rw (bfs_path, a', b', e)
                (search-Ends (suc (length (names adj))) 0 (λ v. 0) ((src, "") ∷ []) (src ∷ [])
                  (start_Inv a e) (omega (arith, left-le ((src, "") ∷ []) (names adj))))
        ]
