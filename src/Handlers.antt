-- ===== src/Handlers.antt =====
-- fiberize/include/fiberize/handler.hpp, and the handler blocks of fiberize/src/fiberize/context.cpp
-- (collectGarbage): handlers with the number of their references, the vectors that own them, and the
-- map from paths.
pub mod References
pub mod Garbage
pub mod Table
use fiberize.Base.{
  ℕ, zero, suc, ◌+◌, ◌-◌, ◌^◌, Bool, true, false, Option, none, some, List, [], ◌∷◌, ◌++◌, length,
  get_elem?, set, ◌==◌, if◌then◌else◌, u64,
}
use fiberize.Identity.{TaskPath, path_eq}

-- What a handler runs: the closure of `initializeHandlers`, which throws `Killed`, or a closure of
-- the user, by its code.
pub data Closure : Type 0 where
  throws_killed : Closure
  runs : ℕ → Closure

-- A closure of `none` is an empty `std::function`, as `release` leaves it.
pub record Handler : Type 0 where
  pub ref_count : ℕ
  pub closure : Option Closure

abbrev pub new_handler : Closure → Handler
new_handler c = record { ref_count = 0; closure = some c }

-- `Handler::grab`
unfoldable pub grab : Handler → Handler
grab h = record h { ref_count = u64 (h.ref_count + 1) }

-- `TypedHandler::release`
unfoldable pub release : Handler → Handler
release h = record h { closure = none }

-- `Handler::drop`; the count is a `uint64_t` and wraps below 0.
unfoldable pub drop : Handler → Handler
unfolding release
drop h =
    let count = u64 (h.ref_count + 2 ^ 64 - 1) in
    let dropped = record h { ref_count = count } in if count == 0 then release dropped else dropped

unfoldable pub is_destroyed : Handler → Bool
is_destroyed h = h.ref_count == 0

-- `std::vector<std::unique_ptr<Handler>>`
abbrev pub HandlerBlock : Type 0
HandlerBlock = List (Option Handler)

abbrev held : Option Handler → List Handler
held none = []
held (some h) = h ∷ []

-- The vector after `resize`, and the handlers that the dropped pointers owned.
abbrev pub resize : ℕ → HandlerBlock → HandlerBlock × List Handler
resize zero [] = ([], [])
resize zero (slot ∷ block) = let (rest, gone) = resize zero block in ([], held slot ++ gone)
resize (suc n) [] = let (rest, gone) = resize n [] in (none ∷ rest, gone)
resize (suc n) (slot ∷ block) = let (rest, gone) = resize n block in (slot ∷ rest, gone)

-- The loop of `collectGarbage` for `rounds` more values of `j`: the final `i`, the vector, and the
-- handlers deleted so far. `none` is undefined behaviour, a read past the end or through null.
unfoldable pub gc_loop :
    ℕ → ℕ → ℕ → HandlerBlock → List Handler → Option (ℕ × HandlerBlock × List Handler)
gc_loop zero i j block gone = some (i, block, gone)
gc_loop (suc rounds) i j block gone = elim (get_elem? block j) [
  | none ↦ none
  | some slot ↦ elim slot [
    | none ↦ none
    | some h ↦ elim (is_destroyed h) [
      | true ↦ gc_loop rounds i (suc j) block gone
      | false ↦ elim (get_elem? (set block j none) i) [
        | none ↦ none
        | some old ↦
            gc_loop rounds (suc i) (suc j) (set (set block j none) i (some h)) (gone ++ held old)
      ]
    ]
  ]
]

-- The block without its destroyed handlers, and the handlers that were deleted.
unfoldable pub collect_garbage : HandlerBlock → Option (HandlerBlock × List Handler)
collect_garbage block = elim (gc_loop (length block) 0 0 block []) [
  | none ↦ none
  | some (i, moved, gone) ↦ let (kept, dropped) = resize i moved in some (kept, gone ++ dropped)
]

-- `std::unordered_map<Path, HandlerBlock>`
abbrev pub HandlerTable : Type 0
HandlerTable = List (TaskPath × HandlerBlock)

unfoldable pub find : TaskPath → HandlerTable → Option HandlerBlock
find path [] = none
find path ((p, block) ∷ table) = if path_eq p path then some block else find path table

-- `handlers[path].emplace_back(handler)`
unfoldable pub emplace_back : TaskPath → Handler → HandlerTable → HandlerTable
emplace_back path h [] = (path, some h ∷ []) ∷ []
emplace_back path h ((p, block) ∷ table) =
    if path_eq p path
    then (p, block ++ some h ∷ []) ∷ table
    else (p, block) ∷ emplace_back path h table

-- The assignment to the block that `find` returned a reference to.
unfoldable pub store : TaskPath → HandlerBlock → HandlerTable → HandlerTable
store path b [] = []
store path b ((p, block) ∷ table) =
    if path_eq p path then (p, b) ∷ table else (p, block) ∷ store path b table

-- `handlers.erase(it)`
unfoldable pub erase : TaskPath → HandlerTable → HandlerTable
erase path [] = []
erase path ((p, block) ∷ table) = if path_eq p path then table else (p, block) ∷ erase path table
