-- ===== src/Clone/Tests.antt =====
-- linux-5.15.178/kernel/fork.c: the calls at a process that may fork.
use oshome_work.Base.{◌≡◌, refl, inr, true, false, none, [], ◌∷◌, arith, leb}
use oshome_work.Fork.State.{try, acquire, hold}
use oshome_work.Fork.Fixtures.{no_flags, caller, before, parent, answers}
use oshome_work.Clone.Same.{IsSame, clone3-clone}
use oshome_work.Clone.Started.{Ended, kernel_clone-Ended}
use oshome_work.Clone.Extended.{kargs_of, UserMemory, UserArgs, has_bad_args, clone3}
use oshome_work.Fork.Flags.{check_clone_flags, clone3_args_valid, CloneFlags, clone3_stack_valid}
use oshome_work.Clone.{
  event_vfork, zero_flags, trace_of, wait_for_vfork_done, task_copied, kernel_clone,
  init_completion, Tracing, clone_args, vfork_args, Setting, report_vfork_done, wake_up_new_task,
  fork, vfork, actions, clone, report,
}
use oshome_work.Fork.{
  copy_parts, link_parent, name_task, give_kv_store, make_pid, copy_process, build_task, copy_files,
  setup_task, copy_sighand, copy_io, prepare_task, copy_mm, copy_signal, copy_fs, start_fork,
  finish_fork, publish,
}

abbrev tracing : Tracing
tracing = record { event_enabled = λ trace. true; vnr = λ nr. nr; killed = false }

abbrev setting : Setting
setting = record {
  caller = caller;
  parent = parent;
  answers = answers;
  max_threads = 1000;
  tracing = tracing;
}

-- A `clone` that shares the memory and the files, with SIGCHLD.
abbrev wanted : CloneFlags
wanted = record no_flags { vm = true; files = true; parent_settid = true; csignal = 17 }

abbrev structure : UserArgs
structure = record {
  flags = record wanted { csignal = 0 };
  pidfd = 512;
  child_tid = 520;
  parent_tid = 512;
  exit_signal = 17;
  stack = 4096;
  stack_size = 8192;
  tls = 0;
  set_tid = 0;
  set_tid_size = 0;
  cgroup = 0;
}

abbrev memory : UserMemory
memory = record {
  copy_struct_from_user = λ size. inr structure;
  copy_from_user = λ address count. none;
  valid_signal = λ sig. leb sig 64;
  access_ok = λ address size. true;
}

structure-IsSame : IsSame structure wanted 12288 512 520 0
structure-IsSame = record {
  flags = refl;
  exit_signal = refl;
  stack = refl;
  pidfd = refl;
  parent_tid = refl;
  child_tid = refl;
  tls = refl;
  set_tid = refl;
  set_tid_size = refl;
  cgroup = refl;
}

clone3-clone_example :
    ((clone3_args_valid memory.access_ok (kargs_of structure [])).1
      ≡ record (clone_args wanted 12288 512 520 0) { stack_size = 8192 })
    × (clone3 setting memory 64 before ≡ clone setting wanted 12288 512 520 0 before)
unfolding has_bad_args clone3_args_valid clone3_stack_valid
clone3-clone_example =
    clone3-clone setting memory 64 structure wanted 12288 512 520 0 before structure-IsSame
      (omega arith) (omega arith) refl refl refl

kernel_clone-Ended_example :
    Ended setting vfork_args before (kernel_clone setting vfork_args before)
kernel_clone-Ended_example = kernel_clone-Ended setting vfork_args before (refl, refl, refl, refl)

-- A `vfork` sets the task up, wakes it, tells the tracer, and waits.
vforked :
    (vfork setting before).2
    ≡ init_completion
      ∷ wake_up_new_task
      ∷ report event_vfork
      ∷ wait_for_vfork_done
      ∷ report_vfork_done
      ∷ []
unfolding vfork kernel_clone task_copied actions trace_of copy_process check_clone_flags finish_fork
    build_task prepare_task start_fork try acquire setup_task copy_parts copy_files copy_fs
    copy_sighand copy_signal copy_mm copy_io make_pid publish link_parent name_task give_kv_store
    hold
vforked = refl

-- The older calls are calls of `clone`.
fork-clone : fork setting before ≡ clone setting (record zero_flags { csignal = 17 }) 0 0 0 0 before
unfolding fork clone
fork-clone = refl

vfork-clone :
    vfork setting before
    ≡ clone setting (record zero_flags { vfork = true; vm = true; csignal = 17 }) 0 0 0 0 before
unfolding vfork clone
vfork-clone = refl
