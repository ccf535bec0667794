-- ===== src/Scheduling/Moving.antt =====
-- The place of a task across the steps of fiberize/src/fiberize/detail/multitaskscheduler.cpp that
-- move it between the queues and the schedulers.
use fiberize.Base.{
  ℕ, ◌+◌, ◌<◌, ◌≡◌, refl, ◌⊎◌, inl, inr, Bool, true, false, none, some, List, [], ◌∷◌, ◌++◌, ◌==◌,
  if◌then◌else◌, total-update, count, count-append, update, arith, ==_iff, ==_refl,
}
use fiberize.Task.{Task, running, status_eq}
use fiberize.Scheduling.{
  Priority, soft, hard, Scheduler, System, set_scheduler, in_task, looping, arriving, is_soft, push,
  begin_task, jump_to_task, queue, with_queue, take, fetch, hand_over, owned_jump,
}
use fiberize.Scheduling.Steps.{Takes, pushing, Executes}
use fiberize.Scheduling.Invariant.{
  IsPlaced, Keeps-IsPlaced, set_scheduler-IsPlaced, waiting, active, waiting-scheduled,
}

-- A task on the way to a queue arrives there.
pub push-IsPlaced :
    {n : ℕ} (k i j : ℕ) (p : Priority) (before after : List ℕ) (s : System)
    → k < n
    → pushing p (s.schedulers k) ≡ before ++ i ∷ after
    → IsPlaced n j s
    → IsPlaced n j (set_scheduler k (push p i (before ++ after) (s.schedulers k)) s)
unfolding push
push-IsPlaced k i j soft before after s lt on placed =
    set_scheduler-IsPlaced k j (push soft i (before ++ after) (s.schedulers k)) s lt
      (unfold waiting in
        rw (on, count-append j before after, count-append j before (i ∷ after)) (ground arith))
      (unfold active in refl) placed
push-IsPlaced k i j hard before after s lt on placed =
    set_scheduler-IsPlaced k j (push hard i (before ++ after) (s.schedulers k)) s lt
      (unfold waiting in
        rw (on, count-append j before after, count-append j before (i ∷ after)) (ground arith))
      (unfold active in refl) placed

-- What runs its own code from a queue starts to execute.
pub begin_task-IsPlaced :
    {n : ℕ} (k i j : ℕ) (s : System)
    → k < n
    → ((s.schedulers k).location ≡ looping) ⊎ ((s.schedulers k).location ≡ arriving)
    → (s.schedulers k).suspending_task ≡ none
    → (s.schedulers k).current_task ≡ some i
    → ((i : ℕ) → IsPlaced n i s)
    → IsPlaced n j (begin_task k i s)
unfolding begin_task
begin_task-IsPlaced k i j s lt out none_left held placed =
    Keeps-IsPlaced k i j (record (s.schedulers k) { location = in_task })
      (record t { status = running; scheduled = false }) s lt (placed j).counts
      (record { apart = ground arith; gone = ground arith; awaits = ground arith })
      (λ e. (placed j).own)
      (record {
        waits = unfold waiting in ground (arith, here);
        runs = unfold active in ground (arith, idle);
      })
  where
    t : Task
    t = s.tasks i

    here : t.scheduled ≡ true
    here = waiting-scheduled k i s lt (placed i).counts (
        unfold waiting in
        elim out [
          | inl e ↦ rw (e, held) (rw (==_refl i) (omega arith))
          | inr e ↦ rw (e, held) (rw (==_refl i) (omega arith))
        ])

    idle : status_eq t.status running ≡ false
    idle = ground (arith, here, (placed i).own.apart)

-- A scheduler jumps to a suspended task that is current.
pub jump_to_task-IsPlaced :
    {n : ℕ} (k j : ℕ) (s : System)
    → k < n
    → (s.schedulers k).location ≡ looping
    → IsPlaced n j s
    → IsPlaced n j (jump_to_task k s)
unfolding jump_to_task
jump_to_task-IsPlaced k j s lt there placed =
    set_scheduler-IsPlaced k j (record (s.schedulers k) { location = arriving }) s lt
      (unfold waiting in rw there refl) (unfold active in rw there refl) placed

-- What a task executes is what is left to suspend once it has handed itself over.
pub hand_over-IsPlaced :
    {n : ℕ} (k i j : ℕ) (s : System)
    → k < n
    → Executes k i s
    → (s.schedulers k).suspending_task ≡ none
    → IsPlaced n j s
    → IsPlaced n j (hand_over k s)
unfolding hand_over
hand_over-IsPlaced k i j s lt executes nothing placed =
    set_scheduler-IsPlaced k j
      (record (s.schedulers k) {
        suspending_task = (s.schedulers k).current_task;
        current_task = none;
        location = looping;
      })
      s lt (unfold waiting in rw executes.0 (omega arith))
      (unfold active in rw (executes.0, nothing) (omega arith)) placed

pub owned_jump-IsPlaced :
    {n : ℕ} (k i j : ℕ) (s : System)
    → k < n
    → (s.schedulers k).location ≡ looping
    → IsPlaced n j s
    → IsPlaced n j (owned_jump k i s)
unfolding owned_jump
owned_jump-IsPlaced {n} k i j s lt there placed = go (is_soft (s.tasks i).status)
  where
    c : Scheduler
    c = record (s.schedulers k) { location = arriving }

    go : (b : Bool) → IsPlaced n j (if b then s else set_scheduler k c s)
    go true = placed
    go false =
        set_scheduler-IsPlaced k j c s lt (unfold waiting in rw there refl)
          (unfold active in rw there refl) placed

-- The lists around a task that a scheduler takes hold it once more than the list that is left.
Takes-count :
    (k m i j : ℕ) (p : Priority) (q : List ℕ) (s : System)
    → Takes k m p i q s
    → count j (queue p (s.schedulers m)) ≡ count j q + (if i == j then 1 else 0)
Takes-count k m i j p q s (inl (e, front)) = rw front (ground arith)
Takes-count k m i j p q s (inr (back, free)) = rw (back, count-append j q (i ∷ [])) (ground arith)

with_queue-waiting :
    (j : ℕ) (p : Priority) (q : List ℕ) (c : Scheduler)
    → waiting j (with_queue p q c) + count j (queue p c) ≡ waiting j c + count j q
unfolding waiting
with_queue-waiting j soft q c = omega arith
with_queue-waiting j hard q c = omega arith

with_queue-active :
    (j : ℕ) (p : Priority) (q : List ℕ) (c : Scheduler) → active j (with_queue p q c) ≡ active j c
unfolding active
with_queue-active j soft q c = refl
with_queue-active j hard q c = refl

take-waiting :
    (i j : ℕ) (c : Scheduler)
    → c.location ≡ looping
    → c.current_task ≡ none
    → waiting j (take i c) ≡ waiting j c + (if i == j then 1 else 0)
unfolding waiting
take-waiting i j c there nothing = rw (there, nothing) (omega arith)

take-active : (i j : ℕ) (c : Scheduler) → c.location ≡ looping → active j (take i c) ≡ active j c
unfolding active
take-active i j c there = rw there refl

-- A scheduler without a current task still has none once a queue of some scheduler is changed.
with_queue-idle :
    (k m : ℕ) (p : Priority) (q : List ℕ) (s : System)
    → (s.schedulers k).location ≡ looping
    → (s.schedulers k).current_task ≡ none
    → ((update s.schedulers m (with_queue p q (s.schedulers m)) k).location ≡ looping)
      × ((update s.schedulers m (with_queue p q (s.schedulers m)) k).current_task ≡ none)
with_queue-idle k m soft q s there nothing =
    (ground (arith, ==_iff m k), ground (arith, ==_iff m k))
with_queue-idle k m hard q s there nothing =
    (ground (arith, ==_iff m k), ground (arith, ==_iff m k))

-- A task moves from a queue to the scheduler that took it.
pub fetch-IsPlaced :
    {n : ℕ} (k m i j : ℕ) (p : Priority) (q : List ℕ) (s : System)
    → k < n
    → m < n
    → (s.schedulers k).location ≡ looping
    → (s.schedulers k).current_task ≡ none
    → Takes k m p i q s
    → IsPlaced n j s
    → IsPlaced n j (fetch k m p i q s)
unfolding fetch
fetch-IsPlaced {n} k m i j p q s lt_k lt_m there nothing found placed = record {
  counts = record {
    waits = omega (
      arith,
      total-update (waiting j) n s.schedulers m left lt_m,
      total-update (waiting j) n removed k (take i (removed k)) lt_k,
      take-waiting i j (removed k) idle.0 idle.1,
      with_queue-waiting j p q (s.schedulers m),
      Takes-count k m i j p q s found,
      placed.counts.waits,
    );
    runs = omega (
      arith,
      total-update (active j) n s.schedulers m left lt_m,
      total-update (active j) n removed k (take i (removed k)) lt_k,
      take-active i j (removed k) idle.0,
      with_queue-active j p q (s.schedulers m),
      placed.counts.runs,
    );
  };
  own = placed.own;
}
  where
    left : Scheduler
    left = with_queue p q (s.schedulers m)

    removed : ℕ → Scheduler
    removed = update s.schedulers m left

    idle : ((removed k).location ≡ looping) × ((removed k).current_task ≡ none)
    idle = with_queue-idle k m p q s there nothing
