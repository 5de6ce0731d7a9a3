-- ===== src/Paths/Left.antt =====
-- What bounds a search: the names that it has not entered, and the length of a walk.
use kubendt.Prelude.{
  ℕ, ◌+◌, ◌≤◌, ◌<◌, String, ◌≡◌, inl, inr, Bool, true, false, Bool-cases, List, [], ◌∷◌,
  if◌then◌else◌, ◌==◌, string_eq, Table, put, length, contains, contains-append, arith,
}
use kubendt.Paths.{Adjacency, neighbours, seen, names}
use kubendt.Paths.Walks.{IsWalk}
use kubendt.Paths.Tree.{seen-put}

-- How many of the names are not entered.
abbrev pub left : Table String String → List String → ℕ
left prev [] = 0
left prev (n ∷ ns) = (if seen prev n then 0 else 1) + left prev ns

pub left-put :
    (prev : Table String String) (cur nb : String) (ns : List String)
    → seen prev nb ≡ false
    → (left (put nb cur prev) ns ≤ left prev ns)
      × (contains ns nb ≡ true → left (put nb cur prev) ns < left prev ns)
left-put prev cur nb [] new = ground arith
left-put prev cur nb (n ∷ ns) new = ground (
  arith,
  new,
  left-put prev cur nb ns new,
  seen-put nb cur n prev,
  string_eq.beq_iff nb n,
  string_eq.beq_iff n nb,
)

pub left-le : (prev : Table String String) (ns : List String) → left prev ns ≤ length ns
left-le prev [] = omega arith
left-le prev (n ∷ ns) = ground (arith, left-le prev ns)

pub contains-names :
    (adj : Adjacency) (a b : String)
    → contains (neighbours adj a) b ≡ true
    → contains (names adj) b ≡ true
contains-names [] a b h = h
contains-names ((v, ns) ∷ adj) a b h = elim (Bool-cases (v == a)) [
  | inl e ↦ ground (arith, e, h, contains-append ns (names adj) b)
  | inr e ↦
      let later = contains-names adj a b (ground (arith, e, h)) in
      ground (arith, later, contains-append ns (names adj) b)
]

pub walk_long :
    (joined : String → String → Bool) (a b : String) (path : List String)
    → IsWalk joined a path b
    → 1 ≤ length path
walk_long joined a b [] w = absurd w
walk_long joined a b (x ∷ path) w = omega arith
