-- ===== src/Life/Group/Once.antt =====
-- linux-5.15.178/kernel/fork.c: each thread and the `signal_struct` end once.
use oshome_work.Base.{
  ℕ, ◌+◌, ◌≤◌, ◌<◌, ◌≡◌, refl, Bool, false, not, ◌&&◌, arith, leb, ◌==◌, if◌then◌else◌, total,
  total_change, total-eq-zero, total_le,
}
use oshome_work.Life.Group.Sigcnt.{Step-IsShared, total_ge, IsShared, alive}
use oshome_work.Life.Group.{Group, Reach, here, next, single}

single-IsShared : (n : ℕ) (oom : Bool) → 1 ≤ n → IsShared n (single oom)
single-IsShared n oom l =
    let g = single oom in
    record {
      usage = λ p. refl;
      ends = λ p. ground arith;
      made = λ p. ground arith;
      sigcnt = omega (
        arith,
        total_change n (λ p. 0) (alive g) 0 l (λ q ne. ground (arith, ne)),
        total-eq-zero n (λ p. 0) (λ p k. refl),
      );
      signal = refl;
      oom = ground arith;
    }

Reach-IsShared : {n : ℕ} {s t : Group} → Reach n s t → IsShared n s → IsShared n t
Reach-IsShared here h = h
Reach-IsShared (next r k) h = Step-IsShared k (Reach-IsShared r h)

-- However threads of a process are added, referred to and put: a thread to which there is a
-- reference is not freed or handed over, and neither is the `signal_struct` freed; nothing ends
-- twice; without references to a thread it has ended, and without any to all threads so has the
-- `signal_struct`, whose `oom_mm`, where there is one, is dropped exactly as often as it is freed.
pub threads_end_once :
    (n : ℕ) (oom : Bool) (t : Group)
    → 1 ≤ n
    → Reach n (single oom) t
    → (p : ℕ) → p < n
    → ((leb 1 (t.refs p) && leb 1 (t.signal_frees + t.task_frees p + t.handed_over p)) ≡ false)
      × (t.signal_frees ≤ 1)
      × (t.task_frees p + t.handed_over p ≤ 1)
      × (t.oom_drops ≡ (if t.oom_mm then t.signal_frees else 0))
      × ((total n t.refs == 0 && not (t.signal_frees == 1)) ≡ false)
      × ((t.refs p == 0 && not (t.task_frees p + t.handed_over p == t.made p)) ≡ false)
threads_end_once n oom t l r p k =
    let h = Reach-IsShared r (single-IsShared n oom l) in
    let c = total_ge n (alive t) p k in
    let d = total_le n (alive t) t.refs (λ q. ground (arith, h.usage q)) in
    (
      ground (arith, h.usage p, h.ends p, h.made p, h.signal, h.sigcnt, c),
      ground (arith, h.signal),
      ground (arith, h.ends p, h.made p),
      h.oom,
      ground (arith, h.signal, h.sigcnt, d),
      ground (arith, h.ends p, h.usage p),
    )
