-- ===== src/Locks/Exclusion.antt =====
-- A namespace's operations exclude one another, over any sequence of steps.
use kubendt.Prelude.{
  ℕ, suc, ◌≤◌, String, ◌≡◌, refl, ◌∙◌, ◌⊎◌, inl, inr, Option-cases, true, false, none, some,
  is_some, [], is_empty, if◌then◌else◌, not, ◌==◌, ◌&&◌, pair_eq, string_eq, lookup, put, keys,
  select, Distinct, lookup-put, lookup-select, put-Distinct, select-Distinct, beq_refl, ok, arith,
}
use kubendt.Locks.{
  State, NamespaceOperationLock, acquire_namespace_operation_lock, release_namespace_operation_lock,
  clear_all_namespace_operation_locks, get_namespace_operation_lock,
}

-- One holder more, if the lock is that of (c, n).
abbrev pub more : String → String → String → String → ℕ → ℕ
more c n cluster namespace h = if cluster == c && namespace == n then suc h else h

-- One operation of some handler on the locks, and what it does to the number of holders of (c, n):
-- a handler holds the lock from an acquisition that it won to its release, and only a holder
-- releases.
pub data Step (c n : String) (s s' : State) (h h' : ℕ) : Type 0 where
  won :
      (cluster namespace operation now : String) (l : NamespaceOperationLock)
      → acquire_namespace_operation_lock (some cluster) namespace operation now s
        ≡ (ok (l, true), s')
      → h' ≡ more c n cluster namespace h
      → Step c n s s' h h'
  lost :
      (cluster namespace operation now : String) (l : NamespaceOperationLock)
      → acquire_namespace_operation_lock (some cluster) namespace operation now s
        ≡ (ok (l, false), s')
      → h' ≡ h
      → Step c n s s' h h'
  released :
      (cluster namespace : String)
      → release_namespace_operation_lock (some cluster) namespace s ≡ (ok tt, s')
      → h ≡ more c n cluster namespace h'
      → Step c n s s' h h'

pub data Run (c n : String) : State → ℕ → Type 0 where
  -- At startup every lock goes, and no handler runs.
  started : (s s' : State) → (clear_all_namespace_operation_locks s).1 ≡ s' → Run c n s' 0
  stepped : (s s' : State) (h h' : ℕ) → Run c n s h → Step c n s s' h h' → Run c n s' h'

-- The holders are counted by the row: at most one, and one exactly when the row is there.
record Counted (c n : String) (s : State) (h : ℕ) : Type 0 where
  distinct : Distinct (keys s.operations)
  count : h ≡ (if is_some (lookup (c, n) s.operations) then 1 else 0)

Step-Counted :
    (c n : String) (s s' : State) (h h' : ℕ)
    → Step c n s s' h h'
    → Counted c n s h
    → Counted c n s' h'
unfolding acquire_namespace_operation_lock release_namespace_operation_lock
Step-Counted c n s s' h h' (won cluster namespace operation now l e g) k =
    let free : lookup (cluster, namespace) s.operations ≡ none = ground (arith, e) in
    let table : s'.operations ≡ put (cluster, namespace) l s.operations = ground (arith, e) in
    record {
      distinct = rw table (put-Distinct (cluster, namespace) l s.operations k.distinct);
      count = ground (
        arith,
        g,
        k.count,
        free,
        table,
        lookup-put (cluster, namespace) (c, n) l s.operations,
        string_eq.beq_iff cluster c,
        string_eq.beq_iff namespace n,
      );
    }
Step-Counted c n s s' h h' (lost cluster namespace operation now l e g) k =
    let table : s'.operations ≡ s.operations = ground (arith, e) in
    record { distinct = rw table k.distinct; count = rw (g, table) k.count }
Step-Counted c n s s' h h' (released cluster namespace e g) k =
    let table : s'.operations
        ≡ select (λ entry. not (entry.0 == (cluster, namespace))) s.operations =
      ground (arith, e) in
    record {
      distinct = rw table (select-Distinct _ s.operations k.distinct);
      count = ground (
        arith,
        g,
        k.count,
        table,
        lookup-select (λ entry. not (entry.0 == (cluster, namespace))) (c, n) s.operations
            k.distinct,
        string_eq.beq_iff cluster c,
        string_eq.beq_iff namespace n,
        string_eq.beq_iff c cluster,
        string_eq.beq_iff n namespace,
      );
    }

Run-Counted : (c n : String) (s : State) (h : ℕ) → Run c n s h → Counted c n s h
unfolding clear_all_namespace_operation_locks
Run-Counted c n s h (started s0 s' e) =
    let empty : s'.operations ≡ [] = ground (arith, e) in
    record { distinct = rw empty tt; count = rw empty refl }
Run-Counted c n s' h' (stepped s _ h _ r step) =
    Step-Counted c n s s' h h' step (Run-Counted c n s h r)

-- From the clean start on, over any acquisitions and releases of locks, at most one handler holds
-- the lock of a namespace, and its row is in the table exactly while one does; a handler releases
-- only a lock that it holds, and no namespace's state is deleted meanwhile.
pub Run-exclusive :
    (c n : String) (s : State) (h : ℕ)
    → Run c n s h
    → (h ≤ 1)
      × (get_namespace_operation_lock (some c) n s ≡ ok none → h ≡ 0)
      × ((l : NamespaceOperationLock)
          → get_namespace_operation_lock (some c) n s ≡ ok (some l)
          → h ≡ 1)
unfolding get_namespace_operation_lock
Run-exclusive c n s h r =
    let k = Run-Counted c n s h r in
    (ground (arith, k.count), λ e. ground (arith, k.count, e), λ l e. ground (arith, k.count, e))

-- Asking for the lock wins it.
abbrev pub Wins : String → String → String → String → State → Type 0
Wins c n operation now s =
    (l : NamespaceOperationLock) × (s' : State) × (acquire_namespace_operation_lock (some c) n
        operation now s
      ≡ (ok (l, true), s'))

pub free-Wins :
    (c n operation now : String) (s : State)
    → lookup (c, n) s.operations ≡ none
    → Wins c n operation now s
unfolding acquire_namespace_operation_lock
free-Wins c n operation now s e =
    let lock : NamespaceOperationLock = record {
      namespace = n;
      operation_type = if is_empty operation then "unknown" else operation;
      started_at = now;
    } in
    (
      lock,
      record s { operations = put (c, n) lock s.operations },
      rw (acquire_namespace_operation_lock, e) refl,
    )

-- After any acquisitions and releases of locks since the clean start, no namespace stays locked
-- out: if nobody holds its lock, any operation wins it at once; otherwise one handler holds it, its
-- release is a step that leaves no holder, and then any operation wins it.
pub Run-available :
    (c n operation now : String) (s : State) (h : ℕ)
    → Run c n s h
    → let freed = (release_namespace_operation_lock (some c) n s).1 in
      ((h ≡ 0) × Wins c n operation now s)
      ⊎ ((h ≡ 1) × Run c n freed 0 × Wins c n operation now freed)
unfolding release_namespace_operation_lock
Run-available c n operation now s h r =
    let k = Run-Counted c n s h r in
    let freed = (release_namespace_operation_lock (some c) n s).1 in
    let gone = lookup-select (λ entry. not (entry.0 == (c, n))) (c, n) s.operations k.distinct in
    let free : lookup (c, n) freed.operations ≡ none =
      ground (arith, gone, beq_refl c, beq_refl n) in
    elim (Option-cases (lookup (c, n) s.operations)) [
      | inl e ↦ inl (ground (arith, k.count, e), free-Wins c n operation now s e)
      | inr (l, e) ↦
          let one : h ≡ 1 = ground (arith, k.count, e) in
          inr (
            one,
            stepped s freed h 0 r
                (released c n refl (one ∙ ground (arith, beq_refl c, beq_refl n))),
            free-Wins c n operation now freed free,
          )
    ]

-- Whoever asks for a lock that is held is shown the current holder and changes nothing; after the
-- release the lock can be won again, and the locks of other namespaces stay as they were.
pub acquire-release :
    (c n other operation now : String) (s : State)
    → Distinct (keys s.operations)
    → ((l : NamespaceOperationLock)
        → get_namespace_operation_lock (some c) n s ≡ ok (some l)
        → acquire_namespace_operation_lock (some c) n operation now s ≡ (ok (l, false), s))
      × (get_namespace_operation_lock (some c) n (release_namespace_operation_lock (some c) n s).1
          ≡ ok none)
      × ((other == n) ≡ false
          → get_namespace_operation_lock
              (some c)
              other
              (release_namespace_operation_lock (some c) n s).1
            ≡ get_namespace_operation_lock (some c) other s)
unfolding get_namespace_operation_lock release_namespace_operation_lock
    acquire_namespace_operation_lock
acquire-release c n other operation now s d =
    let gone = lookup-select (λ entry. not (entry.0 == (c, n))) (c, n) s.operations d in
    let kept = lookup-select (λ entry. not (entry.0 == (c, n))) (c, other) s.operations d in
    (
      λ l e. ground (arith, e),
      ground (arith, gone, beq_refl c, beq_refl n),
      λ differ. ground (arith, kept, differ),
    )
