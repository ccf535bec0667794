-- ===== src/Results/Examples.antt =====
-- Two results of fiberize/include/fiberize/result.hpp, a value and an exception.
use fiberize.Base.{ℕ, ◌≡◌, ◌≢◌, refl, true, false, some, inl, inr, ◌==◌, if◌then◌else◌, arith}
use fiberize.Results.{
  Result, Variables, value, exception, assign_copy, assign_move, assign_value, result,
}
use fiberize.Results.Assignment.{IsHeld, Assigned, assignments-Assigned}

abbrev three : Result ℕ
three = record { is_value_ = true; member = value 3 }

abbrev failed : Result ℕ
failed = record { is_value_ = false; member = exception (some 8) }

abbrev two_results : Variables ℕ
two_results = λ v. if v == 0 then three else failed

assignments-Assigned_example :
    Assigned 0 failed two_results (assign_copy 0 1 two_results)
    × Assigned 0 (result (inl 5)) two_results (assign_value 0 5 two_results)
    × ((t : Variables ℕ) × (assign_move (λ n. 0) 0 1 two_results ≡ some t)
        × (t 0 ≡ failed)
        × IsHeld (t 1)
        × ((k : ℕ) → 0 ≢ k → 1 ≢ k → t k ≡ two_results k))
assignments-Assigned_example =
    assignments-Assigned (λ n. 0) 0 1 5 two_results (λ e. absurd (omega (arith, e)))
      (inl (3, refl, refl)) (inr (some 8, refl, refl))
