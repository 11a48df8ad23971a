-- ===== src/Fork/Unwind.antt =====
-- linux-5.15.178/kernel/fork.c: the error path of `copy_process`. Each label runs its statements and
-- falls through to the next. `delayacct_tsk_free` and `lockdep_free_task` give back nothing that is
-- counted here; `exit_files` does nothing for a task with no table, as its parent may have none.
use oshome_work.Base.{false, not}
use oshome_work.Fork.Flags.{CloneFlags}
use oshome_work.Fork.State.{
  task, creds, policy, perf, audit, security, semundo, files, fs, sighand, signal, mm, namespaces,
  io, thread, pid, pidfd, cgroup, St, Label, release, release_if,
}

unfoldable pub at_fork_out : CloneFlags → St → St
at_fork_out f s = record s { delayed = false }

unfoldable pub at_free : CloneFlags → St → St
at_free f s = at_fork_out f (release task s)

unfoldable pub at_count : CloneFlags → St → St
at_count f s = at_free f (release creds s)

unfoldable pub at_threadgroup_lock : CloneFlags → St → St
at_threadgroup_lock f s = at_count f s

unfoldable pub at_policy : CloneFlags → St → St
at_policy f s = at_threadgroup_lock f (release policy s)

unfoldable pub at_perf : CloneFlags → St → St
at_perf f s = at_policy f (release perf s)

unfoldable pub at_audit : CloneFlags → St → St
at_audit f s = at_perf f (release audit s)

unfoldable pub at_security : CloneFlags → St → St
at_security f s = at_audit f (release security s)

unfoldable pub at_semundo : CloneFlags → St → St
at_semundo f s = at_security f (release semundo s)

unfoldable pub at_files : CloneFlags → St → St
at_files f s = at_semundo f (release_if s.child.has_files files s)

unfoldable pub at_fs : CloneFlags → St → St
at_fs f s = at_files f (release fs s)

unfoldable pub at_sighand : CloneFlags → St → St
at_sighand f s = at_fs f (release sighand s)

unfoldable pub at_signal : CloneFlags → St → St
at_signal f s = at_sighand f (release_if (not f.thread) signal s)

unfoldable pub at_mm : CloneFlags → St → St
at_mm f s = at_signal f (release_if s.child.has_mm mm s)

unfoldable pub at_namespaces : CloneFlags → St → St
at_namespaces f s = at_mm f (release namespaces s)

unfoldable pub at_io : CloneFlags → St → St
at_io f s = at_namespaces f (release_if s.child.has_io io s)

unfoldable pub at_thread : CloneFlags → St → St
at_thread f s = at_io f (release thread s)

unfoldable pub at_free_pid : CloneFlags → St → St
at_free_pid f s = at_thread f (release pid s)

unfoldable pub at_put_pidfd : CloneFlags → St → St
at_put_pidfd f s = at_free_pid f (release_if f.pidfd pidfd s)

unfoldable pub at_cancel_cgroup : CloneFlags → St → St
at_cancel_cgroup f s = at_put_pidfd f (release cgroup (record s { locked = false }))

-- `goto l`
unfoldable pub unwind : Label → CloneFlags → St → St
unwind Label.cancel_cgroup = at_cancel_cgroup
unwind Label.put_pidfd = at_put_pidfd
unwind Label.free_pid = at_free_pid
unwind Label.cleanup_thread = at_thread
unwind Label.cleanup_io = at_io
unwind Label.cleanup_namespaces = at_namespaces
unwind Label.cleanup_mm = at_mm
unwind Label.cleanup_signal = at_signal
unwind Label.cleanup_sighand = at_sighand
unwind Label.cleanup_fs = at_fs
unwind Label.cleanup_files = at_files
unwind Label.cleanup_semundo = at_semundo
unwind Label.cleanup_security = at_security
unwind Label.cleanup_audit = at_audit
unwind Label.cleanup_perf = at_perf
unwind Label.cleanup_policy = at_policy
unwind Label.cleanup_threadgroup_lock = at_threadgroup_lock
unwind Label.cleanup_count = at_count
unwind Label.bad_fork_free = at_free
unwind Label.fork_out = at_fork_out

-- The whole error path opened.
unfoldable pub every_label : Unit {0}
unfolding release release_if at_fork_out at_free at_count at_threadgroup_lock at_policy at_perf
    at_audit at_security at_semundo at_files at_fs at_sighand at_signal at_mm at_namespaces at_io
    at_thread at_free_pid at_put_pidfd at_cancel_cgroup unwind
every_label = tt
