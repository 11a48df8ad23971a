-- ===== src/Fork.antt =====
-- linux-5.15.178/kernel/fork.c: `copy_process`, with the key-value store that this repository adds to
-- it. The steps that only fill in the new task and cannot fail, and that nothing here reads, are left
-- out. CONFIG_NUMA and CONFIG_BLOCK are on, and `pid` is not the one of the idle task.
pub mod Flags
pub mod State
pub mod Unwind
pub mod Undone
pub mod Cleanup
pub mod Keeps
pub mod NewTask
pub mod Store
pub mod Leak
pub mod Checks
pub mod Fixtures
mod Tests
use oshome_work.Base.{
  ℕ, ◌+◌, Bool, true, false, not, ◌&&◌, ◌||◌, Option, none, some, leb, ◌==◌, if◌then◌else◌,
}
use Flags.{CloneFlags, Errno, Caller, enomem, eagain, eintr, erestartnointr, check_clone_flags}
use oshome_work.Kv.{init_task_kv_store}
use Unwind.{unwind}
use State.{
  task, creds, policy, perf, audit, security, semundo, files, fs, sighand, signal, mm, namespaces,
  io, thread, pid, pidfd, cgroup, own, share, Parent, Answers, Child, St, cancel_cgroup, put_pidfd,
  free_pid, cleanup_thread, cleanup_io, cleanup_namespaces, cleanup_mm, cleanup_signal,
  cleanup_sighand, cleanup_fs, cleanup_files, cleanup_semundo, cleanup_security, cleanup_audit,
  cleanup_perf, cleanup_policy, cleanup_threadgroup_lock, cleanup_count, bad_fork_free, fork_out,
  Outcome, next, goto, ◌>>=◌, hold, acquire, try,
}

abbrev pub set_child : (Child → Child) → St → St
set_child g s = record s { child = g s.child }

-- `copy_files`
unfoldable pub copy_files : CloneFlags → Parent → Answers → St → Option Errno × St
unfolding hold acquire
copy_files f p a s₀ =
    let s = set_child (λ c. record c { has_files = p.has_files }) s₀ in
    if not p.has_files
    then (none, s)
    else (if f.files then (none, hold (share files) s) else acquire a.dup_fd files s)

-- `copy_fs`
unfoldable pub copy_fs : CloneFlags → Parent → Answers → St → Option Errno × St
unfolding hold
copy_fs f p a s =
    if f.fs
    then (if p.fs_in_exec then (some eagain, s) else (none, hold (share fs) s))
    else (if a.copy_fs_struct then (none, hold (own fs) s) else (some enomem, s))

-- `copy_sighand`
unfoldable pub copy_sighand : CloneFlags → Answers → St → Option Errno × St
unfolding hold
copy_sighand f a s =
    if f.sighand
    then (none, hold (share sighand) s)
    else (if a.sighand_alloc then (none, hold (own sighand) s) else (some enomem, s))

-- `copy_signal`
unfoldable pub copy_signal : CloneFlags → Answers → St → Option Errno × St
unfolding hold
copy_signal f a s =
    if f.thread
    then (none, s)
    else (if a.signal_alloc then (none, hold (own signal) s) else (some enomem, s))

abbrev pub with_mm : Bool → St → St
with_mm b = set_child (λ c. record c { has_mm = b })

abbrev pub with_io : Bool → St → St
with_io b = set_child (λ c. record c { has_io = b })

-- `copy_mm`: a kernel thread has no memory of its own.
unfoldable pub copy_mm : CloneFlags → Parent → Answers → St → Option Errno × St
unfolding hold
copy_mm f p a s =
    if not p.has_mm
    then (none, with_mm false s)
    else (if f.vm
        then (none, with_mm true (hold (share mm) s))
        else (if a.dup_mm
            then (none, with_mm true (hold (own mm) s))
            else (some enomem, with_mm false s)))

-- `copy_io`; before it `copy_process` has set `p->io_context` to NULL.
unfoldable pub copy_io : CloneFlags → Parent → Answers → St → Option Errno × St
unfolding hold
copy_io f p a s =
    if not p.has_io
    then (none, s)
    else (if f.io
        then (none, with_io true (hold (share io) s))
        else (if p.ioprio_valid
            then (if a.io_context_alloc
                then (none, with_io true (hold (own io) s))
                else (some enomem, s))
            else (none, s)))

-- The signals, the copy of the task, its credentials, and the limits on tasks.
unfoldable pub start_fork : CloneFlags → Parent → Answers → ℕ → St → Outcome
start_fork f p a max_threads s₀ =
    let s = record s₀ { delayed = not f.thread } in
    if p.signal_pending
    then goto fork_out erestartnointr s
    else (if not a.dup_task then goto fork_out enomem s else (do
      t ← try bad_fork_free (acquire a.copy_creds creds (hold (own task) s))
      (if (a.over_nproc && not a.privileged) || leb max_threads t.counters.nr_threads
          then goto cleanup_count eagain t
          else next t)))

-- From the memory policy to the undo list of semaphores.
unfoldable pub setup_task : Answers → St → Outcome
setup_task a s₀ = do
  let s = with_io false s₀
  s ← try cleanup_threadgroup_lock (acquire a.mpol_dup policy s)
  s ← try cleanup_policy (a.sched_fork, s)
  s ← try cleanup_policy (acquire a.perf_init perf s)
  s ← try cleanup_perf (acquire a.audit_alloc audit s)
  s ← try cleanup_audit (acquire a.security_alloc security s)
  try cleanup_security (acquire a.copy_semundo semundo s)

-- `copy_files` to `copy_thread`.
unfoldable pub copy_parts : CloneFlags → Parent → Answers → St → Outcome
copy_parts f p a s = do
  s ← try cleanup_semundo (copy_files f p a s)
  s ← try cleanup_files (copy_fs f p a s)
  s ← try cleanup_fs (copy_sighand f a s)
  s ← try cleanup_sighand (copy_signal f a s)
  s ← try cleanup_signal (copy_mm f p a s)
  s ← try cleanup_mm (acquire a.copy_namespaces namespaces s)
  s ← try cleanup_namespaces (copy_io f p a s)
  try cleanup_io (acquire a.copy_thread thread s)

-- `alloc_pid` and the pidfd. A descriptor is put back where it stands if its file cannot be made.
unfoldable pub make_pid : CloneFlags → Answers → St → Outcome
make_pid f a s = do
  s ← try cleanup_thread (acquire a.alloc_pid pid s)
  (if not f.pidfd then next s else (do
    s ← try free_pid (a.unused_fd, s)
    s ← try free_pid (acquire a.pidfile pidfd s)
    try put_pidfd (a.put_user, s)))

-- The key-value store: a thread takes its parent's pointer, a process a new store. The result of
-- `init_task_kv_store` is not looked at.
unfoldable pub give_kv_store : CloneFlags → Parent → Answers → St → St
give_kv_store f p a s =
    let (ret, t, m) =
      init_task_kv_store a.kv_alloc
        (record { pid = s.child.pid; tgid = s.child.tgid; kv = s.child.kv }) s.kernel in
    record s {
      child = record s.child { kv = (if f.thread then p.kv else t.kv) };
      kernel = (if f.thread then s.kernel else m);
    }

-- `p->pid`, `p->tgid` and `p->group_leader`.
unfoldable pub name_task : CloneFlags → Parent → Answers → St → St
name_task f p a = set_child (λ c. record c {
  pid = a.pid_nr;
  tgid = (if f.thread then p.tgid else a.pid_nr);
  group_leader = (if f.thread then p.group_leader else a.pid_nr);
})

-- Parent and exit signal; `exit_signal` is the one of the arguments.
unfoldable pub link_parent : CloneFlags → Parent → ℕ → St → St
link_parent f p exit_signal = set_child (λ c. record c {
  real_parent = (if f.parent || f.thread then p.real_parent else p.pid);
  exit_signal =
      (if f.parent || f.thread
        then (if f.thread then none else some p.leader_exit_signal)
        else some exit_signal);
})

-- Under the locks: the last two checks, then the task becomes visible and is counted.
unfoldable pub publish : Answers → St → Outcome
publish a s₀ =
    let s = record s₀ { locked = true } in
    if not a.pidns_adding
    then goto cancel_cgroup enomem s
    else (if a.fatal_pending
        then goto cancel_cgroup eintr s
        else (let n = s.counters in
            let counted =
              (if s.child.pid == 0 then record n { total_forks = n.total_forks + 1 } else record {
                nr_threads = n.nr_threads + 1;
                total_forks = n.total_forks + 1;
                group_threads =
                    (if a.thread_group_leader s.child
                      then n.group_threads
                      else n.group_threads + 1);
              }) in
            next (record s { counters = counted; delayed = false; locked = false })))

-- `copy_process` from the signals down to the pidfd.
unfoldable pub prepare_task : CloneFlags → Parent → Answers → ℕ → St → Outcome
prepare_task f p a max_threads s = do
  s ← start_fork f p a max_threads s
  s ← setup_task a s
  s ← copy_parts f p a s
  make_pid f a s

-- `copy_process` after the checks of the flags, down to `return p`.
unfoldable pub build_task : CloneFlags → ℕ → Parent → Answers → ℕ → St → Outcome
build_task f exit_signal p a max_threads s = do
  s ← prepare_task f p a max_threads s
  s ← try put_pidfd (acquire a.can_fork cgroup (name_task f p a (give_kv_store f p a s)))
  publish a (link_parent f p exit_signal s)

-- `return p`, or the error path and `return ERR_PTR(retval)`.
unfoldable pub finish_fork : CloneFlags → Outcome → Option Errno × St
finish_fork f (next t) = (none, t)
finish_fork f (goto l e t) = (some e, unwind l f t)

-- `copy_process`: the error, or `none` with the new task in the state.
unfoldable pub copy_process :
    CloneFlags → ℕ → Caller → Parent → Answers → ℕ → St → Option Errno × St
copy_process f exit_signal c p a max_threads s = elim (check_clone_flags f c) [
  | some e ↦ (some e, s)
  | none ↦ finish_fork f (build_task f exit_signal p a max_threads s)
]
