-- ===== src/Identity/Generators.antt =====
-- The identifiers that the generators of fiberize/src/fiberize/path.cpp hand out.
use Prim.Native.Nat.{bit_or}
use fiberize.Base.{
  ℕ, zero, suc, ◌+◌, ◌*◌, ◌^◌, ◌<◌, ◌≡◌, refl, List, [], ◌∷◌, u64, arith, get_elem?, some, ap, sym,
  ◌∙◌,
}
use fiberize.Identity.{Ident, unique, UniqueIdentGenerator, new_generator, generate}
use fiberize.Identity.Bits.{bit_or-shift}

-- The identifiers of `n` calls in a row.
unfoldable pub generate_list : ℕ → UniqueIdentGenerator → List Ident
generate_list zero g = []
generate_list (suc n) g = let (i, h) = generate g in i ∷ generate_list n h

-- Below 2^48 calls of one of the first 2^16 generators a token is a sum of two parts.
generate-token :
    (g : UniqueIdentGenerator)
    → g.generator_id < 2 ^ 16
    → g.next_token < 2 ^ 48
    → generate g ≡ (
      unique (g.next_token + g.generator_id * 2 ^ 48),
      record g { next_token = g.next_token + 1 },
    )
unfolding generate
generate-token g few fresh = rw (shifted, kept, bit_or-shift 48 g.next_token g.generator_id fresh)
  where
    shifted : u64 (g.generator_id * 2 ^ 48) ≡ g.generator_id * 2 ^ 48
    shifted = omega arith

    kept : u64 (g.next_token + 1) ≡ g.next_token + 1
    kept = omega arith

generate_list-token :
    (n i : ℕ) (g : UniqueIdentGenerator)
    → g.generator_id < 2 ^ 16
    → g.next_token + n < 2 ^ 48 + 1
    → i < n
    → get_elem? (generate_list n g) i ≡ some (unique (g.next_token + i + g.generator_id * 2 ^ 48))
unfolding generate_list
generate_list-token zero i g few fresh below = absurd (omega arith)
generate_list-token (suc n) zero g few fresh below =
    ground (arith, generate-token g few (omega arith))
generate_list-token (suc n) (suc i) g few fresh below =
    let token : ℕ = g.next_token + 1 in
    let h : UniqueIdentGenerator = record g { next_token = token } in
    let same : token + i + g.generator_id * 2 ^ 48
        ≡ g.next_token + suc i + g.generator_id * 2 ^ 48 =
      omega arith in
    rw (generate-token g few (omega arith), ← same)
      (generate_list-token n i h few (omega arith) (omega arith))

generate_list-bound :
    (n i : ℕ) (g : UniqueIdentGenerator) {x : Ident}
    → get_elem? (generate_list n g) i ≡ some x
    → i < n
unfolding generate_list
generate_list-bound zero i g h = ground arith
generate_list-bound (suc n) zero g h = omega arith
generate_list-bound (suc n) (suc i) g h = omega (arith, generate_list-bound n i (generate g).1 h)

-- The identifiers of the first 2^16 generators, 2^48 of each, are all distinct: the same identifier
-- comes only from the same generator, at the same call.
pub generate_list-injective :
    (a b n m i j : ℕ) (x : Ident)
    → a < 2 ^ 16
    → b < 2 ^ 16
    → n < 2 ^ 48 + 1
    → m < 2 ^ 48 + 1
    → get_elem? (generate_list n (new_generator a).0) i ≡ some x
    → get_elem? (generate_list m (new_generator b).0) j ≡ some x
    → (a ≡ b) × (i ≡ j)
unfolding new_generator
generate_list-injective a b n m i j x fa fb fn fm ha hb = ground (
  arith,
  generate_list-bound n i (new_generator a).0 ha,
  generate_list-bound m j (new_generator b).0 hb,
  generate_list-token n i (new_generator a).0 fa (omega arith),
  generate_list-token m j (new_generator b).0 fb (omega arith),
)

-- Past either bound identifiers repeat: call 2^48 + t of the first generator gives what call t of
-- the second one gives, and generator 2^16 + a gives what generator a gives.
pub generate-collides :
    (a t : ℕ)
    → a < 2 ^ 16
    → t < 2 ^ 48
    → ((generate (record { generator_id = 0; next_token = 2 ^ 48 + t })).0
        ≡ (generate (record { generator_id = 1; next_token = t })).0)
      × ((generate (record { generator_id = 2 ^ 16 + a; next_token = t })).0
          ≡ (generate (record { generator_id = a; next_token = t })).0)
unfolding generate
generate-collides a t fa ft = (ap unique (plain ∙ sym (bit_or-shift 48 t 1 ft)), rw wrapped refl)
  where
    plain : bit_or (2 ^ 48 + t) 0 ≡ t + 1 * 2 ^ 48
    plain = bit_or-shift 49 (2 ^ 48 + t) 0 (omega arith) ∙ omega arith

    wrapped : u64 ((2 ^ 16 + a) * 2 ^ 48) ≡ u64 (a * 2 ^ 48)
    wrapped = omega arith
