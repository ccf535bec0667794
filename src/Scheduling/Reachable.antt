-- ===== src/Scheduling/Reachable.antt =====
-- The places of tasks in the states that the schedulers of
-- fiberize/src/fiberize/detail/multitaskscheduler.cpp reach.
use fiberize.Base.{
  ℕ, ◌≡◌, refl, inl, inr, true, none, some, List, ◌++◌, arith, ==_iff, ==_refl, total-zero, u64_max,
}
use fiberize.Scheduling.{Priority, soft, hard, System, looping, push, fetch, hand_over}
use fiberize.Scheduling.Steps.{
  Step, resumes, pushes, finishes, fetches, begins, jumps, arrives, switches, switches_to, ends,
  processes, yields, stops, pins, unpins, spawns, IsInitial, Reach, start, later,
}
use fiberize.Scheduling.Invariant.{IsPlaced, waiting, active}
use fiberize.Scheduling.Resuming.{resume-IsPlaced, finish_suspending-IsPlaced, end_task-IsPlaced}
use fiberize.Scheduling.Clear.{
  AllClear, IsClear-update, push-IsClear, resume-IsClear, finish_suspending-IsClear,
  end_task-IsClear, fetch-IsClear, begin_task-IsClear, jump_to_task-IsClear, hand_over-IsClear,
  owned_jump-IsClear,
}
use fiberize.Scheduling.Running.{run_task-IsPlaced, spawn-IsPlaced}
use fiberize.Scheduling.Moving.{
  push-IsPlaced, begin_task-IsPlaced, jump_to_task-IsPlaced, hand_over-IsPlaced,
  owned_jump-IsPlaced, fetch-IsPlaced,
}

-- Each task is in its place, and each scheduler has suspended the task it left before it runs one.
pub record IsSound (n : ℕ) (s : System) : Type 0 where
  pub placed : (i : ℕ) → IsPlaced n i s
  pub clear : AllClear s

pub fetched_here :
    (k m i : ℕ) (p : Priority) (q : List ℕ) (s : System)
    → (s.schedulers k).location ≡ looping
    → ((fetch k m p i q s).schedulers k).location ≡ looping
unfolding fetch
fetched_here k m i soft q s there = ground (arith, ==_refl k, ==_iff m k)
fetched_here k m i hard q s there = ground (arith, ==_refl k, ==_iff m k)

pub handed_over :
    (k : ℕ) (s : System)
    → (((hand_over k s).schedulers k).location ≡ looping)
      × (((hand_over k s).schedulers k).current_task ≡ none)
unfolding hand_over
handed_over k s = (rw (==_refl k) refl, rw (==_refl k) refl)

pub IsInitial-IsSound : (n : ℕ) (s : System) → IsInitial s → IsSound n s
IsInitial-IsSound n s initial = record {
  placed = λ i. record {
    counts = record {
      waits = rw (initial.no_task i).1 (
          total-zero (waiting i) n s.schedulers
            (λ k. unfold waiting in rw (initial.no_work k) refl));
      runs = rw (initial.no_task i).0 (
          total-zero (active i) n s.schedulers (λ k. unfold active in rw (initial.no_work k) refl));
    };
    own = record {
      apart = λ e. (initial.no_task i).1;
      gone = λ e. (initial.no_task i).1;
      awaits = ground (arith, initial.no_task i);
    };
  };
  clear = λ k. rw (initial.no_work k) (λ e. refl);
}

pub Step-IsSound : {n : ℕ} {s t : System} → IsSound n s → Step n s t → IsSound n t
Step-IsSound {n} {s} sound (resumes k i lt allowed) = record {
  placed = λ j. resume-IsPlaced k i j s lt sound.placed;
  clear = resume-IsClear k i s sound.clear;
}
Step-IsSound {n} {s} sound (pushes k i p before after lt on) = record {
  placed = λ j. push-IsPlaced k i j p before after s lt on (sound.placed j);
  clear =
      IsClear-update k (push p i (before ++ after) (s.schedulers k)) s.schedulers
        (push-IsClear p i (before ++ after) (s.schedulers k) (sound.clear k)) sound.clear;
}
Step-IsSound {n} {s} sound (finishes k lt) = record {
  placed = λ j. finish_suspending-IsPlaced k j s lt sound.placed;
  clear = finish_suspending-IsClear k s sound.clear;
}
Step-IsSound {n} {s} sound (fetches k m i p q lt_k lt_m idle nothing found) = record {
  placed = λ j. fetch-IsPlaced k m i j p q s lt_k lt_m idle.0 nothing found (sound.placed j);
  clear = fetch-IsClear k m i p q s sound.clear;
}
Step-IsSound {n} {s} sound (begins k i lt idle held fresh) = record {
  placed = λ j. begin_task-IsPlaced k i j s lt (inl idle.0) idle.1 held sound.placed;
  clear = begin_task-IsClear k i s idle.1 sound.clear;
}
Step-IsSound {n} {s} sound (jumps k i lt idle held old) = record {
  placed = λ j. jump_to_task-IsPlaced k j s lt idle.0 (sound.placed j);
  clear = jump_to_task-IsClear k s sound.clear;
}
Step-IsSound {n} {s} sound (arrives k i lt there nothing held) = record {
  placed = λ j. begin_task-IsPlaced k i j s lt (inr there) nothing held sound.placed;
  clear = begin_task-IsClear k i s nothing sound.clear;
}
Step-IsSound {n} {s} sound (switches k j lt executes) = record {
  placed = λ i. hand_over-IsPlaced k j i s lt executes (sound.clear k executes.0) (sound.placed i);
  clear = hand_over-IsClear k s sound.clear;
}
Step-IsSound {n} {s} sound (switches_to k j m i p q lt_k lt_m executes found) = record {
  placed = λ l.
      owned_jump-IsPlaced k i l (fetch k m p i q (hand_over k s)) lt_k
        (fetched_here k m i p q (hand_over k s) (handed_over k s).0)
        (fetch-IsPlaced k m i l p q (hand_over k s) lt_k lt_m (handed_over k s).0
          (handed_over k s).1 found
          (hand_over-IsPlaced k j l s lt_k executes (sound.clear k executes.0) (sound.placed l)));
  clear =
      owned_jump-IsClear k i (fetch k m p i q (hand_over k s))
        (fetch-IsClear k m i p q (hand_over k s) (hand_over-IsClear k s sound.clear));
}
Step-IsSound {n} {s} sound (ends k i lt executes) = record {
  placed = λ j. end_task-IsPlaced k i j s lt executes.0 executes.1 sound.placed;
  clear = end_task-IsClear k i s sound.clear;
}
Step-IsSound {n} {s} sound (processes k i lt executes) = record {
  placed = λ j.
      run_task-IsPlaced k i j (record (s.tasks i) { resumes_expected = (s.tasks i).resumes }) s lt
        executes refl refl sound.placed;
  clear = sound.clear;
}
Step-IsSound {n} {s} sound (yields k i lt executes) = record {
  placed = λ j.
      run_task-IsPlaced k i j (record (s.tasks i) { resumes_expected = u64_max }) s lt executes refl
        refl sound.placed;
  clear = sound.clear;
}
Step-IsSound {n} {s} sound (stops k i lt executes) = record {
  placed = λ j.
      run_task-IsPlaced k i j (record (s.tasks i) { stopped = true }) s lt executes refl refl
        sound.placed;
  clear = sound.clear;
}
Step-IsSound {n} {s} sound (pins k i lt executes free) = record {
  placed = λ j.
      run_task-IsPlaced k i j (record (s.tasks i) { pin = some k }) s lt executes refl refl
        sound.placed;
  clear = sound.clear;
}
Step-IsSound {n} {s} sound (unpins k i lt executes) = record {
  placed = λ j.
      run_task-IsPlaced k i j (record (s.tasks i) { pin = none }) s lt executes refl refl
        sound.placed;
  clear = sound.clear;
}
Step-IsSound {n} {s} sound (spawns i raw gone) = record {
  placed = λ j. spawn-IsPlaced i j raw s gone sound.placed;
  clear = sound.clear;
}

-- In every reachable state each task is in its place.
pub Reach-IsSound : {n : ℕ} {s : System} → Reach n s → IsSound n s
Reach-IsSound {n} (start {s} initial) = IsInitial-IsSound n s initial
Reach-IsSound (later reach step) = Step-IsSound (Reach-IsSound reach) step
