-- ===== src/Handlers/Table.antt =====
-- The map from paths to handler blocks, `Task::handlers` of fiberize/include/fiberize/detail/task.hpp.
use fiberize.Base.{◌≡◌, refl, false, Option, none, some, [], ◌∷◌, ◌++◌, if◌then◌else◌, arith}
use fiberize.Identity.{TaskPath, path_eq}
use fiberize.Identity.Paths.{path_eq_iff}
use fiberize.Handlers.{Handler, HandlerBlock, HandlerTable, find, emplace_back, store, erase}

-- `handlers[path]` gives an empty block where there is none.
abbrev pub block_or_empty : Option HandlerBlock → HandlerBlock
block_or_empty none = []
block_or_empty (some b) = b

pub find-emplace_back :
    (p q : TaskPath) (h : Handler) (t : HandlerTable)
    → find q (emplace_back p h t)
      ≡ (if path_eq p q then some (block_or_empty (find p t) ++ some h ∷ []) else find q t)
unfolding find emplace_back
find-emplace_back p q h [] = ground arith
find-emplace_back p q h ((r, b) ∷ t) =
    ground (arith, path_eq_iff r p, path_eq_iff r q, path_eq_iff p q, find-emplace_back p q h t)

abbrev replaced : HandlerBlock → Option HandlerBlock → Option HandlerBlock
replaced b none = none
replaced b (some c) = some b

pub find-store :
    (p q : TaskPath) (b : HandlerBlock) (t : HandlerTable)
    → find q (store p b t) ≡ (if path_eq p q then replaced b (find q t) else find q t)
unfolding find store
find-store p q b [] = ground arith
find-store p q b ((r, c) ∷ t) =
    ground (arith, path_eq_iff r p, path_eq_iff r q, path_eq_iff p q, find-store p q b t)

pub find-erase_ne :
    (p q : TaskPath) (t : HandlerTable) → path_eq p q ≡ false → find q (erase p t) ≡ find q t
unfolding find erase
find-erase_ne p q [] ne = refl
find-erase_ne p q ((r, c) ∷ t) ne =
    ground (arith, path_eq_iff r p, path_eq_iff r q, path_eq_iff p q, find-erase_ne p q t ne)
