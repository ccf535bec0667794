-- ===== src/Handlers/References.antt =====
-- `HandlerRef` of fiberize/include/fiberize/handler.hpp: counted references to handlers.
use fiberize.Base.{
  ℕ, ◌+◌, ◌≤◌, ◌<◌, ◌^◌, ◌≡◌, ◌≢◌, Option, none, some, ◌==◌, false, if◌then◌else◌, update, total,
  total-update, total-le, le-total, arith,
}
use fiberize.Handlers.{Handler, grab, drop, is_destroyed}

-- The handlers by address, and the pointer that each `HandlerRef` variable holds.
pub record References : Type 0 where
  pub handlers : ℕ → Handler
  pub pointers : ℕ → Option ℕ

abbrev modify : (Handler → Handler) → Option ℕ → References → References
modify f none s = s
modify f (some p) s = record s { handlers = update s.handlers p (f (s.handlers p)) }

-- `handler = p;` in the variable `v`
abbrev point : ℕ → Option ℕ → References → References
point v p s = record s { pointers = update s.pointers v p }

-- `HandlerRef(Handler*)` as the variable `v`, which is not constructed yet.
pub construct : ℕ → Option ℕ → References → References
construct v p s = modify grab p (point v p s)

-- `HandlerRef(const HandlerRef&)`
pub copy_construct : ℕ → ℕ → References → References
copy_construct v w s = construct v (s.pointers w) s

-- `HandlerRef(HandlerRef&&)`
pub move_construct : ℕ → ℕ → References → References
move_construct v w s = point w none (point v (s.pointers w) s)

-- `if (handler != nullptr) handler->drop();`
abbrev drop_at : ℕ → References → References
drop_at v s = modify drop (s.pointers v) s

-- `operator = (const HandlerRef&)`
pub copy_assign : ℕ → ℕ → References → References
copy_assign v w s =
    let s₁ = drop_at v s in let s₂ = point v (s₁.pointers w) s₁ in modify grab (s₂.pointers v) s₂

-- `operator = (HandlerRef&&)`
pub move_assign : ℕ → ℕ → References → References
move_assign v w s = let s₁ = drop_at v s in point w none (point v (s₁.pointers w) s₁)

-- `HandlerRef::release`, and the destructor.
pub release_ref : ℕ → References → References
release_ref v s = elim (s.pointers v) [ none ↦ s | some p ↦ point v none (modify drop (some p) s) ]

pub data Action : Type 0 where
  constructs : ℕ → ℕ → Action
  copies moves assigns assigns_moved : ℕ → ℕ → Action
  releases : ℕ → Action

pub act : Action → References → References
unfolding construct copy_construct move_construct copy_assign move_assign release_ref
act (constructs v p) s = construct v (some p) s
act (copies v w) s = copy_construct v w s
act (moves v w) s = move_construct v w s
act (assigns v w) s = copy_assign v w s
act (assigns_moved v w) s = move_assign v w s
act (releases v) s = release_ref v s

abbrev pub points : ℕ → Option ℕ → ℕ
points p none = 0
points p (some q) = if q == p then 1 else 0

-- Among `n` variables as many point to a handler as it counts.
abbrev pub IsCounted : ℕ → References → Type 0
IsCounted n s = (p : ℕ) → (s.handlers p).ref_count ≡ total (points p) n s.pointers

-- The variables exist, and a constructor is called on one that holds nothing.
abbrev pub IsProper : ℕ → References → Action → Type 0
IsProper n s (constructs v p) = (v < n) × (s.pointers v ≡ none)
IsProper n s (copies v w) = (v < n) × (w < n) × (s.pointers v ≡ none)
IsProper n s (moves v w) = (v < n) × (w < n) × (s.pointers v ≡ none) × (v ≢ w)
IsProper n s (assigns v w) = (v < n) × (w < n)
IsProper n s (assigns_moved v w) = (v < n) × (w < n)
IsProper n s (releases v) = v < n

points-le : (p : ℕ) (o : Option ℕ) → points p o ≤ 1
points-le p o = ground arith

module _ (n q : ℕ) where
  abbrev sum : (ℕ → Option ℕ) → ℕ
  sum f = total (points q) n f

  sum-le : (f : ℕ → Option ℕ) → sum f ≤ n
  sum-le f = total-le (points q) n f (points-le q)

  sum-update :
      (f : ℕ → Option ℕ) (v : ℕ) (o : Option ℕ)
      → v < n
      → sum (update f v o) + points q (f v) ≡ sum f + points q o
  sum-update f v o h = total-update (points q) n f v o h

  points-le-sum : (f : ℕ → Option ℕ) (v : ℕ) → v < n → points q (f v) ≤ sum f
  points-le-sum f v h = le-total (points q) n f v h

module _ (n : ℕ) (s : References) (small : n + 1 < 2 ^ 64) (counted : IsCounted n s) (q : ℕ) where
  construct-count :
      (v : ℕ) (o : Option ℕ)
      → v < n
      → s.pointers v ≡ none
      → ((construct v o s).handlers q).ref_count ≡ sum n q (construct v o s).pointers
  unfolding construct grab
  construct-count v o lt fresh =
      ground
        (arith, counted q, sum-update n q s.pointers v o lt, sum-le n q (update s.pointers v o))

  move_construct-count :
      (v w : ℕ)
      → v < n
      → w < n
      → s.pointers v ≡ none
      → v ≢ w
      → ((move_construct v w s).handlers q).ref_count ≡ sum n q (move_construct v w s).pointers
  unfolding move_construct
  move_construct-count v w lt lt' fresh apart = ground (
    arith,
    counted q,
    sum-update n q s.pointers v (s.pointers w) lt,
    sum-update n q (update s.pointers v (s.pointers w)) w none lt',
  )

  release_ref-count :
      (v : ℕ)
      → v < n
      → ((release_ref v s).handlers q).ref_count ≡ sum n q (release_ref v s).pointers
  unfolding release_ref drop
  release_ref-count v lt = ground (
    arith,
    counted q,
    sum-update n q s.pointers v none lt,
    sum-le n q s.pointers,
    points-le-sum n q s.pointers v lt,
  )

  copy_assign-count :
      (v w : ℕ)
      → v < n
      → ((copy_assign v w s).handlers q).ref_count ≡ sum n q (copy_assign v w s).pointers
  unfolding copy_assign drop grab
  copy_assign-count v w lt = ground (
    arith,
    counted q,
    sum-update n q s.pointers v (s.pointers w) lt,
    sum-le n q s.pointers,
    sum-le n q (update s.pointers v (s.pointers w)),
    points-le-sum n q s.pointers v lt,
  )

  move_assign-count :
      (v w : ℕ)
      → v < n
      → w < n
      → ((move_assign v w s).handlers q).ref_count ≡ sum n q (move_assign v w s).pointers
  unfolding move_assign drop
  move_assign-count v w lt lt' = ground (
    arith,
    counted q,
    sum-update n q s.pointers v (s.pointers w) lt,
    sum-update n q (update s.pointers v (s.pointers w)) w none lt',
    sum-le n q s.pointers,
    points-le-sum n q s.pointers v lt,
  )

-- Whatever is done with the references, every handler counts the variables that point to it.
pub act-IsCounted :
    (n : ℕ) (s : References) (a : Action)
    → n + 1 < 2 ^ 64
    → IsProper n s a
    → IsCounted n s
    → IsCounted n (act a s)
unfolding act
act-IsCounted n s (constructs v p) small (lt, fresh) counted q =
    construct-count n s small counted q v (some p) lt fresh
act-IsCounted n s (copies v w) small (lt, lt', fresh) counted q =
    construct-count n s small counted q v (s.pointers w) lt fresh
act-IsCounted n s (moves v w) small (lt, lt', fresh, apart) counted q =
    move_construct-count n s small counted q v w lt lt' fresh apart
act-IsCounted n s (assigns v w) small (lt, lt') counted q =
    copy_assign-count n s small counted q v w lt
act-IsCounted n s (assigns_moved v w) small (lt, lt') counted q =
    move_assign-count n s small counted q v w lt lt'
act-IsCounted n s (releases v) small lt counted q = release_ref-count n s small counted q v lt

-- Assigning the only reference to itself empties the closure of a handler that stays alive: it is
-- still counted once, so it is not collected, and has nothing left to run.
pub copy_assign-self_empties :
    (s : References) (v p : ℕ)
    → s.pointers v ≡ some p
    → (s.handlers p).ref_count ≡ 1
    → let t = copy_assign v v s in
      (t.pointers v ≡ some p)
      × ((t.handlers p).closure ≡ none)
      × (is_destroyed (t.handlers p) ≡ false)
unfolding copy_assign drop grab is_destroyed
copy_assign-self_empties s v p held sole = (ground arith, ground arith, ground arith)
