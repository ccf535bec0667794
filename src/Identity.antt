-- ===== src/Identity.antt =====
-- fiberize/include/fiberize/path.hpp and fiberize/src/fiberize/path.cpp: identifiers, paths to
-- resources, and the generator of unique identifiers. A string is the list of its bytes, a uuid the
-- number that its 16 bytes spell.
pub mod Bits
pub mod Paths
pub mod Generators
use Prim.Native.Nat.{bit_or}
use fiberize.Base.{
  ℕ, ◌+◌, ◌*◌, ◌^◌, Bool, true, false, not, ◌&&◌, ◌||◌, List, [], ◌∷◌, ◌==◌, u64, update,
}

abbrev pub Bytes : Type 0
Bytes = List ℕ

-- `boost::variant<NamedIdent, UniqueIdent>`
pub data Ident : Type 0 where
  named : Bytes → Ident
  unique : ℕ → Ident

-- `boost::variant<DevNullPath, PrefixedPath, GlobalPath>`
pub data TaskPath : Type 0 where
  dev_null : TaskPath
  prefixed : ℕ → Ident → TaskPath
  global : Ident → TaskPath

unfoldable pub bytes_eq : Bytes → Bytes → Bool
bytes_eq [] [] = true
bytes_eq [] (y ∷ ys) = false
bytes_eq (x ∷ xs) [] = false
bytes_eq (x ∷ xs) (y ∷ ys) = x == y && bytes_eq xs ys

-- `operator ==` of the two kinds of identifiers, and of the variant.
unfoldable pub ident_eq : Ident → Ident → Bool
unfolding bytes_eq
ident_eq (named m) (named n) = bytes_eq m n
ident_eq (named m) (unique t) = false
ident_eq (unique s) (named n) = false
ident_eq (unique s) (unique t) = s == t

-- `operator ==` of the three kinds of paths, and of the variant.
unfoldable pub path_eq : TaskPath → TaskPath → Bool
path_eq dev_null dev_null = true
path_eq dev_null (prefixed u i) = false
path_eq dev_null (global i) = false
path_eq (prefixed u i) dev_null = false
path_eq (prefixed u i) (prefixed v j) = u == v && ident_eq i j
path_eq (prefixed u i) (global j) = false
path_eq (global i) dev_null = false
path_eq (global i) (prefixed v j) = false
path_eq (global i) (global j) = ident_eq i j

-- `operator !=` of the three kinds of paths, which the classes write out.
pub path_ne : TaskPath → TaskPath → Bool
path_ne dev_null dev_null = false
path_ne dev_null (prefixed u i) = true
path_ne dev_null (global i) = true
path_ne (prefixed u i) dev_null = true
path_ne (prefixed u i) (prefixed v j) = not (u == v) || not (ident_eq i j)
path_ne (prefixed u i) (global j) = true
path_ne (global i) dev_null = true
path_ne (global i) (prefixed v j) = true
path_ne (global i) (global j) = not (ident_eq i j)

pub record UniqueIdentGenerator : Type 0 where
  pub generator_id : ℕ
  pub next_token : ℕ

-- The constructor takes the counter `generators` of the program; the counter goes up by one.
unfoldable pub new_generator : ℕ → UniqueIdentGenerator × ℕ
new_generator generators =
    (record { generator_id = generators; next_token = 0 }, u64 (generators + 1))

-- `(nextToken++) | (generatorId << 48)`
unfoldable pub generate : UniqueIdentGenerator → Ident × UniqueIdentGenerator
generate g = (
  unique (bit_or g.next_token (u64 (g.generator_id * 2 ^ 48))),
  record g { next_token = u64 (g.next_token + 1) },
)
