-- ===== src/Life/Group/Sigcnt.antt =====
-- linux-5.15.178/kernel/fork.c: the `signal_struct` is freed once, after the last thread.
use oshome_work.Base.{
  ℕ, ◌+◌, ◌-◌, ◌≤◌, ◌<◌, ◌≡◌, ◌≢◌, Bool, arith, ◌==◌, if◌then◌else◌, either, either_if, update,
  total, total_change, total_step, total_mono,
}
use oshome_work.Life.Group.{
  Group, put_signal_struct, last_put, free_signal_struct, free_task, put_task_struct, add_thread,
  get_task_struct, Step, get, hand_over, add, put,
}
use oshome_work.Life.Counted.{one_if}

abbrev pub alive : Group → ℕ → ℕ
alive g p = one_if (g.usage p)

pub record IsShared (n : ℕ) (g : Group) : Type 0 where
  pub usage : (p : ℕ) → g.usage p ≡ g.refs p
  pub ends : (p : ℕ) → g.task_frees p + g.handed_over p + alive g p ≡ g.made p
  pub made : (p : ℕ) → g.made p ≤ 1
  pub sigcnt : g.sigcnt ≡ total n (alive g)
  pub signal : g.signal_frees + one_if g.sigcnt ≡ 1
  pub oom : g.oom_drops ≡ (if g.oom_mm then g.signal_frees else 0)

pub total_ge : (n : ℕ) (f : ℕ → ℕ) (p : ℕ) → p < n → f p ≤ total n f
total_ge n f p l = omega (arith, total_step p f, total_mono (p + 1) n f (omega arith))

-- One task changes.
module _ (n : ℕ) (g t : Group) (p : ℕ) (h : IsShared n g) (l : p < n)
    (same : (q : ℕ) → p ≢ q → alive g q ≡ alive t q) where
  sigcnt-change : total n (alive t) + alive g p ≡ g.sigcnt + alive t p
  sigcnt-change = omega (arith, h.sigcnt, total_change n (alive g) (alive t) p l same)

-- A task that has lost its last reference is still to be freed or handed over.
record IsOwing (n p : ℕ) (g : Group) : Type 0 where
  usage : (q : ℕ) → g.usage q ≡ g.refs q
  ends :
      (q : ℕ) → g.task_frees q + g.handed_over q + alive g q + (if p == q then 1 else 0) ≡ g.made q
  made : (q : ℕ) → g.made q ≤ 1
  sigcnt : g.sigcnt ≡ total n (alive g)
  signal : g.signal_frees + one_if g.sigcnt ≡ 1
  oom : g.oom_drops ≡ (if g.oom_mm then g.signal_frees else 0)

free_task-IsShared : (n p : ℕ) (g : Group) → IsOwing n p g → IsShared n (free_task p g)
unfolding free_task
free_task-IsShared n p g h = record {
  usage = h.usage;
  ends = λ q. ground (arith, h.ends q);
  made = h.made;
  sigcnt = h.sigcnt;
  signal = h.signal;
  oom = h.oom;
}

hand_over-IsShared : (n p : ℕ) (g : Group) → IsOwing n p g → IsShared n (hand_over p g)
unfolding hand_over
hand_over-IsShared n p g h = record {
  usage = h.usage;
  ends = λ q. ground (arith, h.ends q);
  made = h.made;
  sigcnt = h.sigcnt;
  signal = h.signal;
  oom = h.oom;
}

-- The reference to a task goes.
abbrev less_used : ℕ → Group → Group
less_used p g = record g {
  usage = update g.usage p (g.usage p - 1);
  refs = update g.refs p (g.refs p - 1);
}

module _ (n : ℕ) (g : Group) (p : ℕ) (h : IsShared n g) (l : p < n) where
  less_used-alive : total n (alive (less_used p g)) + alive g p ≡ g.sigcnt + alive (less_used p g) p
  less_used-alive = sigcnt-change n g (less_used p g) p h l (λ q ne. ground (arith, ne))

  less_used-IsShared : 2 ≤ g.usage p → IsShared n (less_used p g)
  less_used-IsShared k = record {
    usage = λ q. ground (arith, h.usage q, h.usage p);
    ends = λ q. ground (arith, h.ends q, k);
    made = h.made;
    sigcnt = ground (arith, less_used-alive, k);
    signal = h.signal;
    oom = h.oom;
  }

  put_signal_struct-IsOwing : g.usage p ≡ 1 → IsOwing n p (put_signal_struct (less_used p g))
  unfolding put_signal_struct free_signal_struct
  put_signal_struct-IsOwing e =
      let c = total_ge n (alive g) p l in
      let z : total n (alive (less_used p g)) + 1 ≡ g.sigcnt = ground (arith, less_used-alive, e) in
      either_if (IsOwing n p) (g.sigcnt - 1 == 0)
        (λ b. record {
          usage = λ q. ground (arith, h.usage q, h.usage p);
          ends = λ q. ground (arith, h.ends q, e);
          made = h.made;
          sigcnt = omega (arith, z);
          signal = ground (arith, h.signal, b, z);
          oom = ground (arith, h.oom, h.signal, z);
        })
        (λ b. record {
          usage = λ q. ground (arith, h.usage q, h.usage p);
          ends = λ q. ground (arith, h.ends q, e);
          made = h.made;
          sigcnt = omega (arith, z);
          signal = ground (arith, h.signal, b, z);
          oom = h.oom;
        })

  put-IsShared : 1 ≤ g.refs p → (handoff : Bool) → IsShared n (put_task_struct handoff p g)
  unfolding put_task_struct last_put
  put-IsShared k handoff =
      either_if (IsShared n) (g.usage p - 1 == 0)
        (λ e.
          let o = put_signal_struct-IsOwing (ground (arith, e, h.usage p, k)) in
          either (IsShared n) handoff (hand_over-IsShared n p _ o) (free_task-IsShared n p _ o))
        (λ e. less_used-IsShared (ground (arith, e, h.usage p, k)))

pub Step-IsShared : {n : ℕ} {g t : Group} → Step n g t → IsShared n g → IsShared n t
unfolding add_thread get_task_struct put_task_struct last_put put_signal_struct free_signal_struct
    free_task hand_over
Step-IsShared {n} (get g p l k) h = record {
  usage = λ q. ground (arith, h.usage q, h.usage p);
  ends = λ q. ground (arith, h.ends q, h.ends p, h.usage p, k);
  made = h.made;
  sigcnt =
      let c = sigcnt-change n g (get_task_struct p g) p h l (λ q ne. ground (arith, ne)) in
      ground (arith, c, h.usage p, k);
  signal = h.signal;
  oom = h.oom;
}
Step-IsShared {n} (add g p q l m e k) h = record {
  usage = λ r. ground (arith, h.usage r);
  ends = λ r. ground (arith, h.ends r, h.ends p, e);
  made = λ r. ground (arith, h.made r);
  sigcnt =
      let c = sigcnt-change n g (add_thread p g) p h l (λ r ne. ground (arith, ne)) in
      ground (arith, c, h.ends p, e);
  signal = let c = total_ge n (alive g) q m in ground (arith, h.signal, h.sigcnt, c, h.usage q, k);
  oom = h.oom;
}
Step-IsShared {n} (put g p handoff l k) h = put-IsShared n g p h l k handoff
