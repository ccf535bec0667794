-- ===== src/Handlers/Garbage.antt =====
-- `collectGarbage` of fiberize/src/fiberize/context.cpp against a filter.
use fiberize.Base.{
  ℕ, suc, ◌≡◌, refl, ap, ◌∙◌, true, false, not, Option, none, some, List, [], ◌∷◌, ◌++◌, map,
  length, length-append, get_elem?-append, set-append, get_elem?, set, select, append_assoc,
  append-nil, arith, Bool-cases, inl, inr,
}
use fiberize.Handlers.{Handler, HandlerBlock, held, resize, is_destroyed, gc_loop, collect_garbage}

abbrev pub alive : List Handler → List Handler
alive = select (λ h. not (is_destroyed h))

abbrev pub dead : List Handler → List Handler
dead = select is_destroyed

-- The handlers that the pointers of a block own.
abbrev pub all_held : HandlerBlock → List Handler
all_held [] = []
all_held (slot ∷ block) = held slot ++ all_held block

all_held-append : (b c : HandlerBlock) → all_held (b ++ c) ≡ all_held b ++ all_held c
all_held-append [] c = refl
all_held-append (none ∷ b) c = all_held-append b c
all_held-append (some h ∷ b) c = ap (λ (l : List Handler). h ∷ l) (all_held-append b c)

resize-append : (b c : HandlerBlock) → resize (length b) (b ++ c) ≡ (b, all_held c)
resize-append [] [] = refl
resize-append [] (slot ∷ c) = ground (arith, resize-append [] c)
resize-append (slot ∷ b) c = ground (arith, resize-append b c)

-- The result of the loop from a block with `kept` below `i` and `gap` between `i` and `j`: what it
-- leaves behind `i`, and what it has deleted, are the destroyed handlers in order.
abbrev Compacts :
    HandlerBlock
    → HandlerBlock
    → List Handler
    → List Handler
    → Option (ℕ × HandlerBlock × List Handler)
    → Type 0
Compacts kept gap rest gone r =
    (tail : HandlerBlock) × (gone' : List Handler) × (r
      ≡ some
          (length (kept ++ map some (alive rest)), (kept ++ map some (alive rest)) ++ tail, gone'))
    × (gone' ++ all_held tail ≡ gone ++ all_held gap ++ dead rest)

gc_dead :
    (h : Handler) (rest : List Handler) (kept gap : HandlerBlock) (gone : List Handler)
    {r : Option (ℕ × HandlerBlock × List Handler)}
    → is_destroyed h ≡ true
    → Compacts kept (gap ++ some h ∷ []) rest gone r
    → Compacts kept gap (h ∷ rest) gone r
gc_dead h rest kept gap gone d (tail, gone', ran, lost) =
    rw d (tail, gone', ran, lost ∙ simp (all_held-append, append_assoc))

gc_alive :
    (h : Handler) (rest : List Handler) (kept gap : HandlerBlock) (gone : List Handler)
    {r : Option (ℕ × HandlerBlock × List Handler)}
    → is_destroyed h ≡ false
    → (moved : HandlerBlock) (lost : List Handler) → lost ++ all_held moved ≡ gone ++ all_held gap
    → Compacts (kept ++ some h ∷ []) moved rest lost r
    → Compacts kept gap (h ∷ rest) gone r
gc_alive h rest kept gap gone d moved lost same (tail, gone', ran, e) = rw d (
  tail,
  gone',
  simp append_assoc (simp append_assoc at ran),
  e ∙ ap (λ (l : List Handler). l ++ dead rest) same,
)

module _ (n i j : ℕ) (block : HandlerBlock) (gone : List Handler) (h : Handler) where
  gc_loop-dead :
      get_elem? block j ≡ some (some h)
      → is_destroyed h ≡ true
      → gc_loop (suc n) i j block gone ≡ gc_loop n i (suc j) block gone
  unfolding gc_loop
  gc_loop-dead here d = ground arith

  gc_loop-alive :
      (old : Option Handler)
      → get_elem? block j ≡ some (some h)
      → is_destroyed h ≡ false
      → get_elem? (set block j none) i ≡ some old
      → gc_loop (suc n) i j block gone
        ≡ gc_loop n (suc i) (suc j) (set (set block j none) i (some h)) (gone ++ held old)
  unfolding gc_loop
  gc_loop-alive old here d there = ground arith

-- A round that keeps a handler: what stands at `i` is overwritten, and the gap moves on by one.
abbrev overwritten : HandlerBlock → Option Handler
overwritten [] = none
overwritten (g ∷ gap) = g

abbrev moved_on : HandlerBlock → HandlerBlock
moved_on [] = []
moved_on (g ∷ gap) = gap ++ none ∷ []

length-moved_on : (gap : HandlerBlock) → length (moved_on gap) ≡ length gap
length-moved_on [] = refl
length-moved_on (g ∷ gap) = omega (arith, length-append gap (none ∷ []))

all_held-moved_on :
    (gap : HandlerBlock) → held (overwritten gap) ++ all_held (moved_on gap) ≡ all_held gap
all_held-moved_on [] = refl
all_held-moved_on (g ∷ gap) =
    ap (λ (l : List Handler). held g ++ l)
      (all_held-append gap (none ∷ []) ∙ append-nil (all_held gap))

module _ (h : Handler) (kept tail : HandlerBlock) where
  overwritten-at :
      (gap : HandlerBlock)
      → get_elem? ((kept ++ gap) ++ none ∷ tail) (length kept) ≡ some (overwritten gap)
  overwritten-at [] = simp append-nil (get_elem?-append kept none tail)
  overwritten-at (g ∷ gap) = simp append_assoc (get_elem?-append kept g (gap ++ none ∷ tail))

  moved_on-set :
      (gap : HandlerBlock)
      → set ((kept ++ gap) ++ none ∷ tail) (length kept) (some h)
        ≡ ((kept ++ some h ∷ []) ++ moved_on gap) ++ tail
  moved_on-set [] = simp (append-nil, append_assoc) (set-append kept none (some h) tail)
  moved_on-set (g ∷ gap) = simp append_assoc (set-append kept g (some h) (gap ++ none ∷ tail))

length_round :
    (kept gap gap' : HandlerBlock) (slot : Option Handler) (j : ℕ)
    → j ≡ length (kept ++ gap)
    → length gap' ≡ length gap
    → suc j ≡ length ((kept ++ slot ∷ []) ++ gap')
length_round kept gap gap' slot j ej same = omega (
  arith,
  length-append kept gap,
  length-append kept (slot ∷ []),
  length-append (kept ++ slot ∷ []) gap',
)

length_past :
    (kept gap : HandlerBlock) (slot : Option Handler) (j : ℕ)
    → j ≡ length (kept ++ gap)
    → suc j ≡ length (kept ++ (gap ++ slot ∷ []))
length_past kept gap slot j ej = omega (
  arith,
  length-append kept gap,
  length-append kept (gap ++ slot ∷ []),
  length-append gap (slot ∷ []),
)

gc_loop_lem :
    (rest : List Handler) (kept gap block : HandlerBlock) (i j : ℕ) (gone : List Handler)
    → i ≡ length kept
    → j ≡ length (kept ++ gap)
    → block ≡ (kept ++ gap) ++ map some rest
    → Compacts kept gap rest gone (gc_loop (length rest) i j block gone)
gc_loop_lem [] kept gap block i j gone ei ej eb =
    (gap, gone, rw (ei, eb) (unfold gc_loop in simp append-nil), simp append-nil)
gc_loop_lem (h ∷ rest) kept gap block i j gone ei ej eb = elim (Bool-cases (is_destroyed h)) [
  | inl d ↦ gc_dead h rest kept gap gone d (
      rw (gc_loop-dead (length rest) i j block gone h here d) (
        gc_loop_lem rest kept (gap ++ some h ∷ []) block i (suc j) gone ei
          (length_past kept gap (some h) j ej) (eb ∙ simp append_assoc)))
  | inr d ↦
      gc_alive h rest kept gap gone d (moved_on gap) (gone ++ held (overwritten gap))
        (append_assoc gone (held (overwritten gap)) (all_held (moved_on gap))
          ∙ ap (λ (l : List Handler). gone ++ l) (all_held-moved_on gap))
        (rw (gc_loop-alive (length rest) i j block gone h (overwritten gap) here d there) (
          gc_loop_lem rest (kept ++ some h ∷ []) (moved_on gap) _ (suc i) (suc j) _
            (rw ei (omega (arith, length-append kept (some h ∷ []))))
            (length_round kept gap (moved_on gap) (some h) j ej (length-moved_on gap))
            (rw (hole, ei) (moved_on-set h kept (map some rest) gap))))
]
  where
    here : get_elem? block j ≡ some (some h)
    here = rw (eb, ej) (get_elem?-append (kept ++ gap) (some h) (map some rest))

    hole : set block j none ≡ (kept ++ gap) ++ none ∷ map some rest
    hole = rw (eb, ej) (set-append (kept ++ gap) (some h) none (map some rest))

    there : get_elem? (set block j none) i ≡ some (overwritten gap)
    there = rw (hole, ei) (overwritten-at h kept (map some rest) gap)

length_somes : (hs : List Handler) → length (map {B = Option Handler} some hs) ≡ length hs
length_somes [] = refl
length_somes (h ∷ hs) = ap suc (length_somes hs)

collect_garbage-resize :
    (block kept tail : HandlerBlock) (gone : List Handler)
    → gc_loop (length block) 0 0 block [] ≡ some (length kept, kept ++ tail, gone)
    → collect_garbage block ≡ some (kept, gone ++ all_held tail)
unfolding collect_garbage
collect_garbage-resize block kept tail gone ran = ground (arith, resize-append kept tail)

-- On a block with no null pointer the collection is defined: it keeps exactly the handlers that are
-- not destroyed, in their order, and deletes exactly the destroyed ones, each once and in order.
pub collect_garbage-select :
    (hs : List Handler) → collect_garbage (map some hs) ≡ some (map some (alive hs), dead hs)
collect_garbage-select hs =
    let (tail, gone, ran, lost) = gc_loop_lem hs [] [] (map some hs) 0 0 [] refl refl refl in
    collect_garbage-resize (map some hs) (map some (alive hs)) tail gone (rw (length_somes hs) ran)
    ∙ ap (λ (l : List Handler). some (map {B = Option Handler} some (alive hs), l)) lost
