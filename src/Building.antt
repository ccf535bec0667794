-- ===== src/Building.antt =====
-- fiberize/include/fiberize/builder.hpp and fiberize/include/fiberize/builder-inl.hpp: how a new fiber
-- or actor comes into the system that fiberize/src/fiberize/fibersystem.cpp describes. The closure of
-- the task is a number; the place in memory that `new Task` gives is the parameter `i`. A failed
-- assertion gives `none`.
pub mod Start
mod Examples
use fiberize.Base.{ℕ, Bool, true, false, Option, none, some}
use fiberize.Identity.{Bytes, Ident, named, TaskPath, prefixed, UniqueIdentGenerator, generate}
use fiberize.Mailbox.{DequeMailbox, new_mailbox}
use fiberize.Task.{Task, grab}
use fiberize.Scheduling.{System, set_task, resume}
use fiberize.Bodies.{new_task}
use fiberize.Delivery.{FiberRef, dev_null_ref, local_ref}
use fiberize.Threads.{Thread, attach}

-- `runTaskAsMicrothread` and `runTaskAsOSThread`.
pub data Runner : Type 0 where
  microthread osthread : Runner

pub record Builder : Type 0 where
  pub invalidated : Bool
  pub name : Option Bytes
  pub task : ℕ
  pub mailbox : DequeMailbox
  pub pin : Option ℕ
  pub runner : Runner

pub record FiberSystem : Type 0 where
  pub uuid : ℕ
  pub shutting_down : Bool

-- `FiberSystem::fiber` and `FiberSystem::actor`.
unfoldable pub new_builder : ℕ → DequeMailbox → Builder
new_builder task mailbox = record {
  invalidated = false;
  name = none;
  task = task;
  mailbox = mailbox;
  pin = none;
  runner = microthread;
}

abbrev pub valid : {A : Type 0} → Bool → A → Option A
valid true a = none
valid false a = some a

unfoldable pub copy : Builder → Option Builder
copy b = valid b.invalidated b

as_microthread : Builder → Option Builder
as_microthread b = valid b.invalidated (record b { runner = microthread })

as_osthread : Builder → Option Builder
as_osthread b = valid b.invalidated (record b { runner = osthread })

-- `ident`, with the generator of the thread.
unfoldable pub ident : Option Bytes → UniqueIdentGenerator → Ident × UniqueIdentGenerator
ident none g = generate g
ident (some name) g = (named name, g)

shutdown : FiberSystem → FiberSystem
shutdown sys = record sys { shutting_down = true }

-- `runner_(task)`, with `k` the scheduler that `resume` selects, or the new one of a thread.
unfoldable pub start_task : Runner → ℕ → ℕ → System → System
start_task microthread k i s = resume k i s
start_task osthread k i s = set_task i (attach k false (s.tasks i)).task s

-- What a call of `run` leaves: the builder, the generator, the system of tasks, and the reference.
pub record Started : Type 0 where
  pub builder : Builder
  pub generator : UniqueIdentGenerator
  pub system : System
  pub ref : FiberRef

-- The task in memory, before it is started.
abbrev pub built : FiberSystem → Task → Ident → Builder → Task
built sys raw id b = new_task raw (prefixed sys.uuid id) b.mailbox b.pin b.task

abbrev pub invalidate : Builder → Builder
invalidate b = record b { invalidated = true }

-- `run`: the reference is taken, then the task is started; `meanwhile` is what the threads of the
-- system do to the tasks between the start and the end of `run`.
unfoldable pub run :
    FiberSystem
    → UniqueIdentGenerator
    → ℕ
    → ℕ
    → (System → System)
    → Builder
    → System
    → Option Started
run sys g k i meanwhile b s = valid b.invalidated (elim sys.shutting_down [
  | true ↦ record { builder = invalidate b; generator = g; system = s; ref = dev_null_ref }
  | false ↦ record {
    builder = invalidate b;
    generator = (ident b.name g).1;
    system = meanwhile (
        start_task b.runner k i (set_task i (grab (built sys (s.tasks i) (ident b.name g).0 b)) s));
    ref = local_ref i;
  }
])

-- `run_`: there is no reference.
run_detached :
    FiberSystem
    → UniqueIdentGenerator
    → ℕ
    → ℕ
    → Builder
    → System
    → Option (Builder × UniqueIdentGenerator × System)
run_detached sys g k i b s = valid b.invalidated (elim sys.shutting_down [
  | true ↦ (invalidate b, g, s)
  | false ↦ (
    invalidate b,
    (ident b.name g).1,
    start_task b.runner k i (set_task i (built sys (s.tasks i) (ident b.name g).0 b) s),
  )
])
