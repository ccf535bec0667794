-- ===== src/Scheduling/Pins.antt =====
-- Where the pinned tasks of fiberize/src/fiberize/detail/multitaskscheduler.cpp are found, and who
-- executes them.
use fiberize.Base.{
  ℕ, ◌≤◌, ◌<◌, ◌≡◌, refl, inl, inr, Bool, true, false, none, some, List, [], ◌∷◌, ◌==◌,
  if◌then◌else◌, count-append, arith, Bool-cases, ==_iff, ==_refl, subst, sym, ap, u64_max,
}
use fiberize.Task.{Task, running, dead, construct}
use fiberize.Scheduling.{
  Priority, soft, hard, looping, arriving, in_task, Scheduler, System, set_task, set_scheduler,
  begin_task, jump_to_task, hand_over, with_queue, take, fetch, is_soft, owned_jump,
}
use fiberize.Scheduling.Steps.{
  Allows, Takes, Executes, IsInitial, Reach, start, later, Step, resumes, pushes, finishes, fetches,
  begins, jumps, arrives, switches, switches_to, ends, processes, yields, stops, pins, unpins,
  spawns,
}
use fiberize.Scheduling.Invariant.{waiting, active}
use fiberize.Scheduling.Reachable.{fetched_here, handed_over}
use fiberize.Scheduling.Exclusion.{Reach-alone, Reach-dead_absent}
use fiberize.Scheduling.Home.{
  presence, IsHome, Gains, set_scheduler-IsHome, keep_scheduler-IsHome, set_task-IsHome,
  resume-IsHome, push-IsHome, finish_suspending-IsHome, end_task-IsHome,
}

-- A queue that a task is taken from holds the others as before.
with_queue-less :
    (k m i j : ℕ) (p : Priority) (q : List ℕ) (s : System)
    → Takes k m p i q s
    → presence j (with_queue p q (s.schedulers m)) ≤ presence j (s.schedulers m)
unfolding waiting active
with_queue-less k m i j soft q s (inl (e, front)) = rw front (ground arith)
with_queue-less k m i j soft q s (inr (back, free)) =
    rw (back, count-append j q (i ∷ [])) (ground arith)
with_queue-less k m i j hard q s (inl (e, front)) = rw front (ground arith)
with_queue-less k m i j hard q s (inr (back, free)) =
    rw (back, count-append j q (i ∷ [])) (ground arith)

-- What a scheduler takes may run there: it stood in a queue of its own, or is not pinned.
Takes-Allows :
    {n : ℕ} (k m i : ℕ) (p : Priority) (q : List ℕ) (s : System)
    → m < n
    → IsHome n s
    → Takes k m p i q s
    → Allows k (s.tasks i)
unfolding waiting active
Takes-Allows k m i soft q s lt home (inl (e, front)) =
    subst (λ (x : ℕ). Allows x (s.tasks i)) (sym e)
      (home m i lt (rw front (rw (==_refl i) (omega arith))))
Takes-Allows k m i hard q s lt home (inl (e, front)) =
    subst (λ (x : ℕ). Allows x (s.tasks i)) (sym e)
      (home m i lt (rw front (rw (==_refl i) (omega arith))))
Takes-Allows k m i p q s lt home (inr (back, free)) = inl free

take-Gains : (k i : ℕ) (s : System) → Allows k (s.tasks i) → Gains k i (take i (s.schedulers k)) s
unfolding waiting active
take-Gains k i s allowed j there = elim (Bool-cases (i == j)) [
  | inl e ↦
      inr ((==_iff i j).0 e, subst (λ (x : ℕ). Allows k (s.tasks x)) ((==_iff i j).0 e) allowed)
  | inr e ↦ inl (ground (arith, there, e))
]

fetch-IsHome :
    {n : ℕ} (k m i : ℕ) (p : Priority) (q : List ℕ) (s : System)
    → m < n
    → IsHome n s
    → Takes k m p i q s
    → IsHome n (fetch k m p i q s)
unfolding fetch
fetch-IsHome k m i p q s lt home found =
    set_scheduler-IsHome k i (take i (removed.schedulers k)) removed
      (keep_scheduler-IsHome m (with_queue p q (s.schedulers m)) s home
        (λ j. with_queue-less k m i j p q s found))
      (take-Gains k i removed (Takes-Allows k m i p q s lt home found))
  where
    removed : System
    removed = set_scheduler m (with_queue p q (s.schedulers m)) s

begin_task-IsHome :
    {n : ℕ} (k i : ℕ) (s : System)
    → (s.schedulers k).current_task ≡ some i
    → IsHome n s
    → IsHome n (begin_task k i s)
unfolding begin_task
begin_task-IsHome k i s held home =
    set_task-IsHome i (record (s.tasks i) { status = running; scheduled = false })
      (set_scheduler k (record (s.schedulers k) { location = in_task }) s) refl
      (keep_scheduler-IsHome k (record (s.schedulers k) { location = in_task }) s home
        (λ j. unfold waiting in unfold active in ground (arith, held)))

jump_to_task-IsHome : {n : ℕ} (k : ℕ) (s : System) → IsHome n s → IsHome n (jump_to_task k s)
unfolding jump_to_task
jump_to_task-IsHome k s home =
    keep_scheduler-IsHome k (record (s.schedulers k) { location = arriving }) s home
      (λ j. unfold waiting in unfold active in ground arith)

hand_over-IsHome : {n : ℕ} (k : ℕ) (s : System) → IsHome n s → IsHome n (hand_over k s)
unfolding hand_over
hand_over-IsHome k s home =
    keep_scheduler-IsHome k
      (record (s.schedulers k) {
        suspending_task = (s.schedulers k).current_task;
        current_task = none;
        location = looping;
      })
      s home (λ j. unfold waiting in unfold active in ground arith)

owned_jump-IsHome :
    {n : ℕ} (k i : ℕ) (s : System)
    → (s.schedulers k).location ≡ looping
    → IsHome n s
    → IsHome n (owned_jump k i s)
unfolding owned_jump
owned_jump-IsHome {n} k i s there home = go (is_soft (s.tasks i).status)
  where
    c : Scheduler
    c = record (s.schedulers k) { location = arriving }

    go : (b : Bool) → IsHome n (if b then s else set_scheduler k c s)
    go true = home
    go false =
        keep_scheduler-IsHome k c s home
          (λ j. unfold waiting in unfold active in rw there (omega arith))

-- A task that pins itself to the scheduler that executes it occurs in no other one.
pin-IsHome :
    {n : ℕ} (k i : ℕ) (s : System)
    → Reach n s
    → k < n
    → Executes k i s
    → IsHome n s
    → IsHome n (set_task i (record (s.tasks i) { pin = some k }) s)
pin-IsHome {n} k i s reach lt executes home m j lt_m there = elim (Bool-cases (i == j)) [
  | inl e ↦ rw e (
      inr (
        ap (λ (x : ℕ). some x)
          (sym (
            Reach-alone k m i s reach lt lt_m executes (
              subst (λ (x : ℕ). 1 ≤ presence x (s.schedulers m)) (sym ((==_iff i j).0 e)) there)))))
  | inr e ↦ rw e (home m j lt_m there)
]

unpin-IsHome :
    {n : ℕ} (i : ℕ) (s : System)
    → IsHome n s
    → IsHome n (set_task i (record (s.tasks i) { pin = none }) s)
unpin-IsHome i s home m j lt there = elim (Bool-cases (i == j)) [
  | inl e ↦ rw e (inl refl)
  | inr e ↦ rw e (home m j lt there)
]

-- A new task occurs nowhere.
spawn-IsHome :
    {n : ℕ} (i : ℕ) (raw : Task) (s : System)
    → Reach n s
    → (s.tasks i).status ≡ dead
    → IsHome n s
    → IsHome n (set_task i (construct raw) s)
spawn-IsHome i raw s reach gone home m j lt there = elim (Bool-cases (i == j)) [
  | inl e ↦ absurd (
      ground (
        arith,
        Reach-dead_absent m i s reach lt gone,
        subst (λ (x : ℕ). 1 ≤ presence x (s.schedulers m)) (sym ((==_iff i j).0 e)) there,
      ))
  | inr e ↦ rw e (home m j lt there)
]

Step-IsHome : {n : ℕ} {s t : System} → Reach n s → IsHome n s → Step n s t → IsHome n t
Step-IsHome {n} {s} reach home (resumes k i lt allowed) = resume-IsHome k i s allowed home
Step-IsHome {n} {s} reach home (pushes k i p before after lt on) =
    push-IsHome k i p before after s on home
Step-IsHome {n} {s} reach home (finishes k lt) = finish_suspending-IsHome k s lt home
Step-IsHome {n} {s} reach home (fetches k m i p q lt_k lt_m idle nothing found) =
    fetch-IsHome k m i p q s lt_m home found
Step-IsHome {n} {s} reach home (begins k i lt idle held fresh) = begin_task-IsHome k i s held home
Step-IsHome {n} {s} reach home (jumps k i lt idle held old) = jump_to_task-IsHome k s home
Step-IsHome {n} {s} reach home (arrives k i lt there nothing held) =
    begin_task-IsHome k i s held home
Step-IsHome {n} {s} reach home (switches k j lt executes) = hand_over-IsHome k s home
Step-IsHome {n} {s} reach home (switches_to k j m i p q lt_k lt_m executes found) =
    owned_jump-IsHome k i (fetch k m p i q (hand_over k s))
      (fetched_here k m i p q (hand_over k s) (handed_over k s).0)
      (fetch-IsHome k m i p q (hand_over k s) lt_m (hand_over-IsHome k s home) found)
Step-IsHome {n} {s} reach home (ends k i lt executes) =
    end_task-IsHome k i s lt executes.0 executes.1 home
Step-IsHome {n} {s} reach home (processes k i lt executes) =
    set_task-IsHome i (record (s.tasks i) { resumes_expected = (s.tasks i).resumes }) s refl home
Step-IsHome {n} {s} reach home (yields k i lt executes) =
    set_task-IsHome i (record (s.tasks i) { resumes_expected = u64_max }) s refl home
Step-IsHome {n} {s} reach home (stops k i lt executes) =
    set_task-IsHome i (record (s.tasks i) { stopped = true }) s refl home
Step-IsHome {n} {s} reach home (pins k i lt executes free) = pin-IsHome k i s reach lt executes home
Step-IsHome {n} {s} reach home (unpins k i lt executes) = unpin-IsHome i s home
Step-IsHome {n} {s} reach home (spawns i raw gone) = spawn-IsHome i raw s reach gone home

start-IsHome : {n : ℕ} (s : System) → IsInitial s → IsHome n s
unfolding waiting active
start-IsHome s initial k i lt there = absurd (ground (arith, initial.no_work k, there))

-- Every place that a task occurs in is one that its pin allows.
Reach-IsHome : {n : ℕ} {s : System} → Reach n s → IsHome n s
Reach-IsHome (start {s} initial) = start-IsHome s initial
Reach-IsHome (later reach step) = Step-IsHome reach (Reach-IsHome reach) step

-- A scheduler executes a pinned task only if it is the one that the task is pinned to.
pub Reach-Executes_pinned :
    {n : ℕ} (k p i : ℕ) (s : System)
    → Reach n s
    → k < n
    → (s.tasks i).pin ≡ some p
    → Executes k i s
    → k ≡ p
unfolding waiting active
Reach-Executes_pinned k p i s reach lt pinned executes = ground (
  arith,
  pinned,
  Reach-IsHome reach k i lt (rw (executes.0, executes.1) (rw (==_refl i) (omega arith))),
)
