-- ===== src/Pinning.antt =====
-- fiberize/src/fiberize/scopedpin.cpp: a task is pinned to the scheduler that it runs in for as long
-- as a scope lasts, unless it is pinned already.
use fiberize.Base.{ℕ, Bool, true, false, Option, none, some, ◌≡◌, refl}

-- `ScopedPin::ScopedPin`: the pin of the task, and `wasPinned`.
unfoldable pub pin_scope : ℕ → Option ℕ → Option ℕ × Bool
pin_scope scheduler none = (some scheduler, false)
pin_scope scheduler (some pin) = (some pin, true)

-- `ScopedPin::~ScopedPin`.
unfoldable pub unpin_scope : Bool → Option ℕ → Option ℕ
unpin_scope false pin = none
unpin_scope true pin = pin

-- A scope whose body leaves the pin alone gives the task the pin back that it had.
pub unpin_scope-pin_scope :
    (scheduler : ℕ) (pin : Option ℕ)
    → unpin_scope (pin_scope scheduler pin).1 (pin_scope scheduler pin).0 ≡ pin
unfolding unpin_scope pin_scope
unpin_scope-pin_scope scheduler none = refl
unpin_scope-pin_scope scheduler (some pin) = refl
