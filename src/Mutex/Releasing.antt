-- ===== src/Mutex/Releasing.antt =====
-- The tickets, the queue and the owner across the critical sections of
-- fiberize/src/fiberize/mutex.cpp.
use fiberize.Base.{
  ℕ, suc, ◌+◌, ◌^◌, ◌≤◌, ◌<◌, ◌≡◌, ◌≢◌, subst, inl, inr, Bool, true, false, Option, none, some,
  List, [], ◌∷◌, ◌++◌, if◌then◌else◌, length, get_elem?, set, arith, sym, ap, ◌∙◌, update,
  Bool-cases, ◌==◌, ==_iff, ==_refl, get_elem?-append, length-append, get_elem?-append_left,
  get_elem?-snoc, get_elem?-set, get_elem?-set_apart, length-set,
}
use fiberize.Mutex.Steps.{Phase, outside, waits, inside}
use fiberize.Mutex.Tickets.{IsQueued, IsOwned, Owns, waits_injective}

-- A phase that is no place in the queue.
abbrev pub IsUnqueued : ℕ → Phase → Type 0
IsUnqueued r p = (t : ℕ) → p ≡ waits t → t ≤ r

-- A task that is in no place of the queue moves to another such phase.
pub move-IsQueued :
    {r next : ℕ} {xs : List (Option ℕ)} {phase : ℕ → Phase} (i : ℕ) (p : Phase)
    → IsUnqueued r (phase i)
    → IsUnqueued r p
    → IsQueued r next xs phase
    → IsQueued r next xs (update phase i p)
move-IsQueued {r} {next} {xs} {phase} i p old new queued = record {
  counts = queued.counts;
  small = queued.small;
  ahead = ahead;
  behind = behind;
}
  where
    ahead : (j k : ℕ) → update phase i p j ≡ waits (suc (r + k)) → get_elem? xs k ≡ some (some j)
    ahead j k e = elim (Bool-cases (i == j)) [
      | inl same ↦ absurd (ground (arith, same, e, new (suc (r + k))))
      | inr apart ↦
          queued.ahead j k
            (subst (λ (b : Bool). (if b then p else phase j) ≡ waits (suc (r + k))) apart e)
    ]

    behind : (j k : ℕ) → get_elem? xs k ≡ some (some j) → update phase i p j ≡ waits (suc (r + k))
    behind j k e = elim (Bool-cases (i == j)) [
      | inl same ↦ absurd (
          ground (
            arith,
            old (suc (r + k)) (
                subst (λ (x : ℕ). phase x ≡ waits (suc (r + k))) (sym ((==_iff i j).0 same))
                  (queued.behind j k e)),
          ))
      | inr apart ↦ rw apart (queued.behind j k e)
    ]

-- The owner leaves.
pub leave-IsOwned :
    {r : ℕ} {phase : ℕ → Phase} (i : ℕ)
    → IsOwned (some i) r phase
    → IsOwned none r (update phase i outside)
leave-IsOwned {r} {phase} i owned = record {
  only = λ j e. absurd (only j e);
  indeed = λ j e. absurd (ground (arith, e));
}
  where
    only : (j : ℕ) → ¬ Owns r (update phase i outside j)
    only j e = elim (Bool-cases (i == j)) [
      | inl same ↦ ground (arith, same, e)
      | inr apart ↦ ground (
        arith,
        apart,
        (==_iff i j),
        owned.only j (subst (λ (b : Bool). Owns r (if b then outside else phase j)) apart e),
      )
    ]

-- A task takes a lock that nobody owns.
pub take-IsOwned :
    {r : ℕ} {phase : ℕ → Phase} (i : ℕ)
    → IsOwned none r phase
    → IsOwned (some i) r (update phase i inside)
take-IsOwned {r} {phase} i owned = record { only = only; indeed = indeed }
  where
    only : (j : ℕ) → Owns r (update phase i inside j) → some i ≡ some j
    only j e = elim (Bool-cases (i == j)) [
      | inl same ↦ ap (λ (x : ℕ). some x) ((==_iff i j).0 same)
      | inr apart ↦ absurd (
          ground (
            arith,
            owned.only j (subst (λ (b : Bool). Owns r (if b then inside else phase j)) apart e),
          ))
    ]

    indeed : (j : ℕ) → some i ≡ some j → Owns r (update phase i inside j)
    indeed j e = inl (ground (arith, e, ==_refl i))

-- The phase of one task changes, and whether it owns the lock does not.
pub keep-IsOwned :
    {r : ℕ} {o : Option ℕ} {phase : ℕ → Phase} (i : ℕ) (p : Phase)
    → (Owns r p → Owns r (phase i))
    → (Owns r (phase i) → Owns r p)
    → IsOwned o r phase
    → IsOwned o r (update phase i p)
keep-IsOwned {r} {o} {phase} i p back forth owned = record { only = only; indeed = indeed }
  where
    only : (j : ℕ) → Owns r (update phase i p j) → o ≡ some j
    only j e = elim (Bool-cases (i == j)) [
      | inl same ↦
          subst (λ (x : ℕ). o ≡ some x) ((==_iff i j).0 same)
            (owned.only i (back (subst (λ (b : Bool). Owns r (if b then p else phase j)) same e)))
      | inr apart ↦ owned.only j (subst (λ (b : Bool). Owns r (if b then p else phase j)) apart e)
    ]

    indeed : (j : ℕ) → o ≡ some j → Owns r (update phase i p j)
    indeed j e = elim (Bool-cases (i == j)) [
      | inl same ↦
          rw same (forth (owned.indeed i (e ∙ sym (ap (λ (x : ℕ). some x) ((==_iff i j).0 same)))))
      | inr apart ↦ rw apart (owned.indeed j e)
    ]

-- A task takes a ticket and the last place of the queue.
pub enroll-IsQueued :
    {r next : ℕ} {xs : List (Option ℕ)} {phase : ℕ → Phase} (i : ℕ)
    → IsUnqueued r (phase i)
    → suc next < 2 ^ 64
    → IsQueued r next xs phase
    → IsQueued r (suc next) (xs ++ some i ∷ []) (update phase i (waits next))
enroll-IsQueued {r} {next} {xs} {phase} i old small queued = record {
  counts = ground (arith, queued.counts, length-append xs (some i ∷ []));
  small = small;
  ahead = ahead;
  behind = behind;
}
  where
    last : suc (r + length xs) ≡ next
    last = queued.counts

    ahead :
        (j k : ℕ)
        → update phase i (waits next) j ≡ waits (suc (r + k))
        → get_elem? (xs ++ some i ∷ []) k ≡ some (some j)
    ahead j k e = elim (Bool-cases (i == j)) [
      | inl same ↦
          subst (λ (x : ℕ). get_elem? (xs ++ some i ∷ []) x ≡ some (some j))
            (omega (
              arith,
              last,
              waits_injective next (suc (r + k)) (
                  subst (λ (b : Bool). (if b then waits next else phase j) ≡ waits (suc (r + k)))
                    same e),
            ))
            (get_elem?-append xs (some i) [] ∙ ap (λ (x : ℕ). some (some x)) ((==_iff i j).0 same))
      | inr apart ↦ get_elem?-append_left xs (some i ∷ []) k (some j) (
          queued.ahead j k (
            subst (λ (b : Bool). (if b then waits next else phase j) ≡ waits (suc (r + k))) apart
              e))
    ]

    unplaced : (j k : ℕ) → get_elem? xs k ≡ some (some j) → i ≢ j
    unplaced j k e same = absurd (
        omega (
          arith,
          old (suc (r + k))
              (subst (λ (x : ℕ). phase x ≡ waits (suc (r + k))) (sym same) (queued.behind j k e)),
        ))

    self : (j : ℕ) → some (some i) ≡ some (some j) → i == j ≡ true
    self j new = ground (arith, new, ==_refl i)

    behind :
        (j k : ℕ)
        → get_elem? (xs ++ some i ∷ []) k ≡ some (some j)
        → update phase i (waits next) j ≡ waits (suc (r + k))
    behind j k e = elim (get_elem?-snoc xs (some i) k (some j) e) [
      | inl there ↦ elim (Bool-cases (i == j)) [
        | inl same ↦ absurd (unplaced j k there ((==_iff i j).0 same))
        | inr apart ↦ rw apart (queued.behind j k there)
      ]
      | inr (here, new) ↦ rw (self j new) (ap (λ (t : ℕ). waits t) (omega (arith, last, here)))
    ]

-- A task gives its place in the queue up.
pub withdraw-IsQueued :
    {r next : ℕ} {xs : List (Option ℕ)} {phase : ℕ → Phase} (i k : ℕ)
    → phase i ≡ waits (suc (r + k))
    → IsQueued r next xs phase
    → IsQueued r next (set xs k none) (update phase i outside)
withdraw-IsQueued {r} {next} {xs} {phase} i k place queued = record {
  counts = omega (arith, queued.counts, length-set xs k none);
  small = queued.small;
  ahead = ahead;
  behind = behind;
}
  where
    there :
        (j l : ℕ)
        → i == j ≡ false
        → update phase i outside j ≡ waits (suc (r + l))
        → get_elem? xs l ≡ some (some j)
    there j l apart e =
        queued.ahead j l
          (subst (λ (b : Bool). (if b then outside else phase j) ≡ waits (suc (r + l))) apart e)

    unlike : (j : ℕ) → i == j ≡ false → some (some i) ≢ some (some j)
    unlike j apart e = ground (arith, apart, e, ==_refl i)

    ahead :
        (j l : ℕ)
        → update phase i outside j ≡ waits (suc (r + l))
        → get_elem? (set xs k none) l ≡ some (some j)
    ahead j l e = elim (Bool-cases (i == j)) [
      | inl same ↦ absurd (ground (arith, same, e))
      | inr apart ↦
          get_elem?-set_apart xs k none l (some j)
            (λ d.
              unlike j apart (
                sym (queued.ahead i k place)
                ∙ ap (λ (x : ℕ). get_elem? xs x) d
                ∙ there j l apart e))
            (there j l apart e)
    ]

    behind :
        (j l : ℕ)
        → get_elem? (set xs k none) l ≡ some (some j)
        → update phase i outside j ≡ waits (suc (r + l))
    behind j l e = elim (get_elem?-set xs k none l (some j) e) [
      | inl (same, new) ↦ absurd (ground (arith, new))
      | inr (apart, old) ↦ elim (Bool-cases (i == j)) [
        | inl same ↦ absurd (
            apart (
              omega (
                arith,
                waits_injective (suc (r + k)) (suc (r + l)) (
                    sym place
                    ∙ subst (λ (x : ℕ). phase x ≡ waits (suc (r + l))) (sym ((==_iff i j).0 same))
                        (queued.behind j l old)),
              )))
        | inr d ↦ rw d (queued.behind j l old)
      ]
    ]
