-- ===== src/Delivery/Evolution.antt =====
-- How the steps of fiberize/src/fiberize/detail/multitaskscheduler.cpp change a task that does not
-- change itself.
use fiberize.Base.{
  ℕ, ◌+◌, ◌≤◌, ◌≡◌, refl, subst, ◌⊎◌, inl, inr, Bool, true, false, ◌==◌, update, arith, Bool-cases,
  ==_iff, ◌∙◌,
}
use fiberize.Task.{Task, TaskStatus, starting, suspended, listening}

abbrev pub IsAsleep : TaskStatus → Type 0
IsAsleep status = (status ≡ suspended) ⊎ (status ≡ listening)

-- `u` is what has become of the task `t`, with at most `c` more resumes. It went to sleep only if
-- `settled`.
pub record Evolves (c : ℕ) (settled : Bool) (t u : Task) : Type 0 where
  pub mail : u.mailbox ≡ t.mailbox
  pub expects : u.resumes_expected ≡ t.resumes_expected
  pub grows : t.resumes ≤ u.resumes
  pub slowly : u.resumes ≤ t.resumes + c
  pub halts : t.stopped ≡ true → u.stopped ≡ true
  pub sleeps : IsAsleep u.status → IsAsleep t.status ⊎ (settled ≡ true) ⊎ (u.stopped ≡ true)
  pub starts :
      u.status ≡ starting → u.scheduled ≡ false → (t.status ≡ starting) × (t.scheduled ≡ false)

pub Evolves-refl : (settled : Bool) (t : Task) → Evolves 0 settled t t
Evolves-refl settled t = record {
  mail = refl;
  expects = refl;
  grows = omega arith;
  slowly = omega arith;
  halts = λ h. h;
  sleeps = λ a. inl a;
  starts = λ e f. (e, f);
}

pub Evolves-slower :
    {c : ℕ} (d : ℕ) (settled : Bool) (t u : Task)
    → c ≤ d
    → Evolves c settled t u
    → Evolves d settled t u
Evolves-slower d settled t u le r = record {
  mail = r.mail;
  expects = r.expects;
  grows = r.grows;
  slowly = omega (arith, r.slowly, le);
  halts = r.halts;
  sleeps = r.sleeps;
  starts = r.starts;
}

pub Evolves-quieter : (b : Bool) {c : ℕ} {v w : Task} → Evolves c false v w → Evolves c b v w
Evolves-quieter b change = record {
  mail = change.mail;
  expects = change.expects;
  grows = change.grows;
  slowly = change.slowly;
  halts = change.halts;
  sleeps = λ a. elim (change.sleeps a) [
    | inl b ↦ inl b
    | inr (inl d) ↦ absurd (ground (arith, d))
    | inr (inr h) ↦ inr (inr h)
  ];
  starts = change.starts;
}

pub Evolves-at :
    {c : ℕ} (settled : Bool) (i j : ℕ) (u : Task) (tasks : ℕ → Task)
    → (i ≡ j → Evolves c settled (tasks i) u)
    → Evolves c settled (tasks j) (update tasks i u j)
Evolves-at {c} settled i j u tasks changed = elim (Bool-cases (i == j)) [
  | inl e ↦ rw e (
      subst (λ (x : ℕ). Evolves c settled (tasks x) u) ((==_iff i j).0 e)
        (changed ((==_iff i j).0 e)))
  | inr e ↦
      rw e (
        Evolves-slower c settled (tasks j) (tasks j) (omega arith) (Evolves-refl settled (tasks j)))
]

pub Evolves-trans :
    {c d : ℕ} (settled : Bool) (t u v : Task)
    → Evolves c settled t u
    → Evolves d false u v
    → Evolves (c + d) settled t v
Evolves-trans settled t u v first second = record {
  mail = second.mail ∙ first.mail;
  expects = second.expects ∙ first.expects;
  grows = omega (arith, first.grows, second.grows);
  slowly = omega (arith, first.slowly, second.slowly);
  halts = λ h. second.halts (first.halts h);
  sleeps = λ a. elim (second.sleeps a) [
    | inl b ↦ elim (first.sleeps b) [
      | inl c ↦ inl c
      | inr (inl d) ↦ inr (inl d)
      | inr (inr d) ↦ inr (inr (second.halts d))
    ]
    | inr (inl d) ↦ absurd (ground (arith, d))
    | inr (inr d) ↦ inr (inr d)
  ];
  starts = λ e f. let (a, b) = second.starts e f in first.starts a b;
}
