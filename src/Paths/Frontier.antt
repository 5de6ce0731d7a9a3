-- ===== src/Paths/Frontier.antt =====
-- The invariant of the search: the queue is in the order of depth, no deeper than one below the pod
-- under way, and every neighbour of a pod that left the queue is entered, at most one deeper.
use kubendt.Prelude.{
  ℕ, suc, ◌+◌, ◌≤◌, String, ◌≡◌, ◌≢◌, sym, ap, ◌⊎◌, inl, inr, Bool, true, false, Bool-cases, List,
  [], ◌∷◌, ◌++◌, ◌==◌, string_eq, Table, put, length, contains, contains-append, beq_refl, arith,
}
use kubendt.Paths.{Search, seen, queue_neighbour}
use kubendt.Paths.Walks.{IsWalk}
use kubendt.Paths.Tree.{Depth, deepen, deepen_seen, seen-put, seen-put_cases, IsTree, IsTree-put}

-- The depths do not fall along the queue.
abbrev pub Sorted : Depth → List String → Type 0
Sorted d [] = Unit
Sorted d (x ∷ xs) = ((y : String) → contains xs y ≡ true → d x ≤ d y) × Sorted d xs

snoc_cases :
    (xs : List String) (z y : String)
    → contains (xs ++ (z ∷ [])) y ≡ true
    → (z ≡ y) ⊎ (contains xs y ≡ true)
snoc_cases xs z y c = elim (Bool-cases (z == y)) [
  | inl e ↦ inl ((string_eq.beq_iff z y).0 e)
  | inr e ↦ inr (ground (arith, c, e, contains-append xs (z ∷ []) y))
]

Sorted-snoc :
    (d : Depth) (xs : List String) (z : String)
    → Sorted d xs
    → ((y : String) → contains xs y ≡ true → d y ≤ d z)
    → Sorted d (xs ++ (z ∷ []))
Sorted-snoc d [] z s h = (λ y c. absurd (ground (arith, c)), tt)
Sorted-snoc d (x ∷ xs) z (first, s) h = (
  λ y c. elim (snoc_cases xs z y c) [
    | inl e ↦ omega (arith, h x (ground (arith, beq_refl x)), ap d e)
    | inr c' ↦ first y c'
  ],
  Sorted-snoc d xs z s (λ y c. h y (ground (arith, c))),
)

Sorted-agree :
    (d e : Depth) (xs : List String)
    → ((y : String) → contains xs y ≡ true → e y ≡ d y)
    → Sorted d xs
    → Sorted e xs
Sorted-agree d e [] h s = tt
Sorted-agree d e (x ∷ xs) h (first, s) = (
  λ y c. omega (arith, first y c, h y (ground (arith, c)), h x (ground (arith, beq_refl x))),
  Sorted-agree d e xs (λ y c. h y (ground (arith, c))) s,
)

-- Every pod joined to `u` is entered, at most one deeper than `u`.
abbrev pub Closed : (String → String → Bool) → Table String String → Depth → String → Type 0
Closed joined prev d u = (w : String) → joined u w ≡ true → (seen prev w ≡ true) × (d w ≤ suc (d u))

pub record Inv (joined : String → String → Bool) (src dst : String) (open_pods : List String)
    (k : ℕ) (d : Depth) (s : Search) : Type 0 where
  pub tree : IsTree joined src s.prev d
  pub unseen : seen s.prev dst ≡ false
  pub queued : (y : String) → contains s.queue y ≡ true → seen s.prev y ≡ true
  pub above : (y : String) → contains s.queue y ≡ true → k ≤ d y
  pub sorted : Sorted d s.queue
  pub capped : (v : String) → seen s.prev v ≡ true → d v ≤ suc k
  pub closed :
      (u : String) → seen s.prev u ≡ true → (contains open_pods u ≡ true) ⊎ Closed joined s.prev d u

-- While the neighbours of `cur` are gone through, of which `todo` are left.
pub record Scanning (joined : String → String → Bool) (src dst cur : String) (todo : List String)
    (d : Depth) (s : Search) : Type 0 where
  pub inv : Inv joined src dst (cur ∷ s.queue) (d cur) d s
  pub entered : seen s.prev cur ≡ true
  pub closing :
      (w : String)
      → joined cur w ≡ true
      → (contains todo w ≡ true) ⊎ ((seen s.prev w ≡ true) × (d w ≤ suc (d cur)))

module _ (joined : String → String → Bool) (src dst : String) where
  -- A walk to the destination from a pod that is entered leads over the queue.
  pub no_near :
      (open_pods : List String) (c : ℕ) (d : Depth) (s : Search) (k : ℕ) (u : String)
      (path : List String)
      → Inv joined src dst open_pods c d s
      → ((y : String) → contains open_pods y ≡ true → c ≤ d y)
      → seen s.prev u ≡ true
      → d u ≤ k
      → k + length path ≤ suc c
      → IsWalk joined u path dst
      → ⊥
  no_near open_pods c d s k u [] i o su deep short w = w
  no_near open_pods c d s k u (x ∷ []) i o su deep short (xu, xd) =
      ground (arith, su, i.unseen, xu, xd)
  no_near open_pods c d s k u (x ∷ y ∷ path) i o su deep short (xu, j, w) = elim (i.closed u su) [
    | inl h ↦ absurd (omega (arith, o u h))
    | inr h ↦
        let (sy, near) = h y (rw (sym xu) j) in
        no_near open_pods c d s (suc k) y (y ∷ path) i o sy (omega arith) (omega arith) w
  ]

  pub Scanning-seen :
      (cur nb : String) (todo : List String) (d : Depth) (s : Search)
      → Scanning joined src dst cur (nb ∷ todo) d s
      → seen s.prev nb ≡ true
      → Scanning joined src dst cur todo d s
  Scanning-seen cur nb todo d s f h = record {
    inv = f.inv;
    entered = f.entered;
    closing = λ w j. elim (f.closing w j) [
      | inr done ↦ inr done
      | inl c ↦ elim (Bool-cases (nb == w)) [
        | inl e ↦
            let sw : seen s.prev w ≡ true = rw (sym ((string_eq.beq_iff nb w).0 e)) h in
            inr (sw, f.inv.capped w sw)
        | inr e ↦ inl (ground (arith, c, e))
      ]
    ];
  }

  pub Scanning-new :
      (cur nb : String) (todo : List String) (d : Depth) (s : Search)
      → Scanning joined src dst cur (nb ∷ todo) d s
      → seen s.prev nb ≡ false
      → (nb == dst) ≡ false
      → joined cur nb ≡ true
      → nb ≢ ""
      → Scanning joined src dst cur todo (deepen nb (suc (d cur)) d) (queue_neighbour cur nb s)
  unfolding queue_neighbour
  Scanning-new cur nb todo d s f new other j named =
      let e = deepen nb (suc (d cur)) d in
      let same : (v : String) → seen s.prev v ≡ true → e v ≡ d v =
        λ v h. deepen_seen s.prev d nb v (suc (d cur)) new h in
      let still : (v : String) → seen s.prev v ≡ true → seen (put nb cur s.prev) v ≡ true =
        λ v h. ground (arith, h, seen-put nb cur v s.prev) in
      let deep : e nb ≡ suc (d cur) = rw (beq_refl nb) in
      let here : e cur ≡ d cur = same cur f.entered in
      record {
        inv = record {
          tree = IsTree-put joined src s.prev d cur nb f.inv.tree f.entered new j named;
          unseen = ground (arith, seen-put nb cur dst s.prev, f.inv.unseen, other);
          queued = λ y c. elim (snoc_cases s.queue nb y c) [
            | inl y' ↦ ground (arith, seen-put nb cur y s.prev, beq_refl nb, y')
            | inr c' ↦ still y (f.inv.queued y c')
          ];
          above = λ y c. elim (snoc_cases s.queue nb y c) [
            | inl y' ↦ omega (arith, deep, here, ap e y')
            | inr c' ↦ omega (arith, here, f.inv.above y c', same y (f.inv.queued y c'))
          ];
          sorted =
              Sorted-snoc e s.queue nb
                (Sorted-agree d e s.queue (λ y c. same y (f.inv.queued y c)) f.inv.sorted)
                (λ y c.
                  omega
                    (arith, deep, same y (f.inv.queued y c), f.inv.capped y (f.inv.queued y c)));
          capped = λ v h. elim (seen-put_cases nb cur v s.prev h) [
            | inl v' ↦ omega (arith, deep, here, ap e v')
            | inr h' ↦ omega (arith, here, f.inv.capped v h', same v h')
          ];
          closed = λ u h. elim (seen-put_cases nb cur u s.prev h) [
            | inl u' ↦ inl (ground (arith, contains-append s.queue (nb ∷ []) u, u', beq_refl nb))
            | inr h' ↦ elim (f.inv.closed u h') [
              | inl o ↦ inl (ground (arith, o, contains-append s.queue (nb ∷ []) u))
              | inr c ↦
                  inr
                    (λ w j. (still w (c w j).0, omega (arith, c w j, same w (c w j).0, same u h')))
            ]
          ];
        };
        entered = still cur f.entered;
        closing = λ w j. elim (f.closing w j) [
          | inr (sw, near) ↦ inr (still w sw, omega (arith, near, here, same w sw))
          | inl c ↦ elim (Bool-cases (nb == w)) [
            | inl x ↦
                let w' = (string_eq.beq_iff nb w).0 x in
                inr
                  (ground (arith, seen-put nb cur w s.prev, x), omega (arith, deep, here, ap e w'))
            | inr x ↦ inl (ground (arith, c, x))
          ]
        ];
      }
