-- ===== src/Life/Freed.antt =====
-- linux-5.15.178/kernel/fork.c: an address space is freed once, after its last reference.
use oshome_work.Base.{
  ◌+◌, ◌-◌, ◌≤◌, ◌≡◌, refl, ap, ◌⊎◌, inl, inr, Bool, true, false, not, ◌&&◌, ◌||◌, Option, none,
  some, arith, leb, ◌==◌, if◌then◌else◌,
}
use oshome_work.Life.Counted.{Step-IsCounted, Reach-IsCounted, IsCounted}
use oshome_work.Life.{
  get_task_mm, exit_mmap, mm_access, begin_put, mmput_async_fn, run_put, put_queued, put_users,
  exit_areas, Access, end_put, Life, drop_queued, drop_count, mmdrop_async_fn, here, next, finish,
  run_drop, Reach, Step, dropped, born, checked, Errno, mmget, refused, mmput, null, given, eacces,
}

-- However the calls on the two counters of an address space interleave, immediate and queued ones:
-- its memory is there while anyone uses it, its structure is not freed while anyone holds it, it is
-- freed at most once, `__mmput` runs only with no users left, and a queued work is never
-- initialised again.
pub mm_safe :
    {t : Life}
    → Reach born t
    → ((leb 1 t.users && not t.mapped) ≡ false)
      × ((leb 1 (t.users + t.holders) && leb 1 t.freed) ≡ false)
      × ((leb 1 t.ending && leb 1 t.mm_users) ≡ false)
      × (t.freed ≤ 1)
      × (t.requeued ≡ false)
mm_safe {t} r = let h = Reach-IsCounted r in ground (arith, h)

after : {s t u : Life} → Step s t → Reach t u → Reach s u
after k here = next here k
after k (next r l) = next (after k r) l

-- The pending calls bring it to its end.
Ends : Life → Type 0
Ends t = (u : Life) × Reach t u × (u.freed ≡ 1) × (u.mapped ≡ false)

module _ (t : Life) (h : IsCounted t) (nobody : t.users + t.holders ≡ 0) where
  ended-Ends : 1 ≤ t.ended → Ends t
  unfolding Ends end_put drop_count dropped
  ended-Ends l = (
    end_put t,
    next here (finish t l),
    ground (arith, h, nobody, l),
    ground (arith, h, nobody, l),
  )

  dropping-Ends : t.work ≡ drop_queued → Ends t
  unfolding Ends mmdrop_async_fn dropped
  dropping-Ends e = (
    mmdrop_async_fn t,
    next here (run_drop t e),
    ground (arith, h, nobody, e),
    ground (arith, h, nobody, e),
  )

  freed-Ends : t.freed ≡ 1 → Ends t
  unfolding Ends
  freed-Ends e = (t, here, e, ground (arith, h, nobody, e))

then-Ends : {s t : Life} → Step s t → Ends t → Ends s
unfolding Ends
then-Ends k (u, r, e, m) = (u, after k r, e, m)

module _ (t : Life) (h : IsCounted t) (nobody : t.users + t.holders ≡ 0) where
  ending-Ends : 1 ≤ t.ending → Ends t
  unfolding exit_mmap
  ending-Ends l =
      let k = exit_areas t l in
      then-Ends k (ended-Ends (exit_mmap t) (Step-IsCounted k h) nobody (omega arith))

module _ (t : Life) (h : IsCounted t) (nobody : t.users + t.holders ≡ 0) where
  queued-Ends : t.work ≡ put_queued → Ends t
  unfolding mmput_async_fn begin_put
  queued-Ends e =
      let k = run_put t e in
      then-Ends k (ending-Ends (mmput_async_fn t) (Step-IsCounted k h) nobody (omega arith))

-- Where the structure is, with no reference to it.
stages :
    (t : Life)
    → IsCounted t
    → t.users + t.holders ≡ 0
    → (t.freed ≡ 1)
      ⊎ ((t.work ≡ drop_queued) ⊎ ((t.work ≡ put_queued) ⊎ ((1 ≤ t.ending) ⊎ (1 ≤ t.ended))))
stages t h nobody = ground (arith, h, nobody)

-- Whenever nobody uses or holds an address space any more, the steps that its pending calls still
-- have to take bring it to where its memory is gone and its structure was freed once.
pub mm_freed :
    {t : Life}
    → Reach born t
    → t.users + t.holders ≡ 0
    → (u : Life) × Reach t u × (u.freed ≡ 1) × (u.mapped ≡ false)
unfolding Ends
mm_freed {t} r nobody =
    let h = Reach-IsCounted r in
    elim (stages t h nobody) [
      | inl e ↦ freed-Ends t h nobody e
      | inr (inl e) ↦ dropping-Ends t h nobody e
      | inr (inr (inl e)) ↦ queued-Ends t h nobody e
      | inr (inr (inr (inl l))) ↦ ending-Ends t h nobody l
      | inr (inr (inr (inr l))) ↦ ended-Ends t h nobody l
    ]

-- The answer of `mm_access`.
abbrev pub access_answer : (killed : Option Errno) (has_mm kthread own may_access : Bool) → Access
access_answer (some e) has_mm kthread own may_access = refused e
access_answer none has_mm kthread own may_access =
    if not has_mm || kthread then null else if own || may_access then given else refused eacces

-- The address space with what the answer holds of it.
abbrev pub held : Access → Life → Life
held given s = mmget s
held null s = s
held (refused e) s = s

mmput-mmget : (s : Life) → 1 ≤ s.mm_users → mmput (mmget s) ≡ s
unfolding mmget mmput put_users
mmput-mmget s l =
    let a : s.mm_users + 1 - 1 ≡ s.mm_users = omega arith in
    let b : s.users + 1 - 1 ≡ s.users = omega arith in
    let z : (s.mm_users == 0) ≡ false = ground arith in
    rw (a) (rw (z) (λ i. record s { users = b i }))

-- With users there, `mm_access` gives its answer, and takes a reference exactly where it gives the
-- address space.
pub mm_access-held :
    (killed : Option Errno) (has_mm kthread own may_access : Bool) (s : Life)
    → 1 ≤ s.mm_users
    → mm_access killed has_mm kthread own may_access s ≡ (
      access_answer killed has_mm kthread own may_access,
      held (access_answer killed has_mm kthread own may_access) s,
    )
unfolding mm_access checked get_task_mm
mm_access-held (some e) has_mm kthread own may_access s l = refl
mm_access-held none false kthread own may_access s l = refl
mm_access-held none true true own may_access s l = refl
mm_access-held none true false true may_access s l = refl
mm_access-held none true false false true s l = refl
mm_access-held none true false false false s l = ap (λ t. (refused eacces, t)) (mmput-mmget s l)
