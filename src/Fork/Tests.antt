-- ===== src/Fork/Tests.antt =====
-- linux-5.15.178/kernel/fork.c: the theorems at the forks of a process, and at the start of a thread.
use oshome_work.Base.{◌≡◌, refl, true, none, some, arith}
use oshome_work.Base.Int.{pos}
use oshome_work.Fork.Undone.{Undone}
use oshome_work.Kv.Invariant.{IsPlaced}
use oshome_work.Fork.NewTask.{copy_process-Made, Made}
use oshome_work.Kv.Calls.{Ready}
use oshome_work.Fork.Store.{thread_sees_write, as_task}
use oshome_work.Base.Run.{◌>>=◌, ok}
use oshome_work.Kv.{read_kv, Task, write_kv, deref}
use oshome_work.Kv.Bucket.{count_key}
use oshome_work.Fork.Unwind.{every_label}
use oshome_work.Fork.Cleanup.{copy_process-Undone}
use oshome_work.Fork.Flags.{eagain}
use oshome_work.Fork.State.{next, goto, Outcome, try, acquire, hold}
use oshome_work.Fork.{
  copy_sighand, copy_fs, copy_files, copy_io, copy_signal, link_parent, give_kv_store, publish,
  name_task, copy_mm, setup_task, copy_parts, build_task, start_fork, prepare_task, copy_process,
  make_pid, finish_fork,
}
use oshome_work.Fork.Flags.{check_clone_flags}
use oshome_work.Fork.State.{St}
use oshome_work.Fork.Fixtures.{
  no_flags, thread_flags, caller, parent, answers, empty_store, before, full, refused,
}

refuses : (copy_process no_flags 17 caller parent refused 1000 before).0 ≡ some eagain
unfolding copy_process check_clone_flags every_label finish_fork build_task prepare_task start_fork
    try acquire setup_task copy_parts copy_files copy_fs copy_sighand copy_signal copy_mm copy_io
    make_pid
refuses = refl

copy_process-Undone_example : Undone (copy_process no_flags 17 caller parent refused 1000 before).1
copy_process-Undone_example =
    copy_process-Undone no_flags 17 caller parent refused 1000 before eagain
      (refl, refl, refl, refl) refuses

done : (copy_process no_flags 17 caller parent answers 1000 before).0 ≡ none
unfolding copy_process check_clone_flags finish_fork build_task prepare_task start_fork try acquire
    setup_task copy_parts copy_files copy_fs copy_sighand copy_signal copy_mm copy_io make_pid
    publish link_parent name_task give_kv_store hold
done = refl

done_full : (copy_process no_flags 17 caller parent full 1000 before).0 ≡ none
unfolding copy_process check_clone_flags finish_fork build_task prepare_task start_fork try acquire
    setup_task copy_parts copy_files copy_fs copy_sighand copy_signal copy_mm copy_io make_pid
    publish link_parent name_task give_kv_store hold
done_full = refl

done_thread : (copy_process thread_flags 0 caller parent answers 1000 before).0 ≡ none
unfolding copy_process check_clone_flags finish_fork build_task prepare_task start_fork try acquire
    setup_task copy_parts copy_files copy_fs copy_sighand copy_signal copy_mm copy_io make_pid
    publish link_parent name_task give_kv_store hold
done_thread = refl

copy_process-Made_example :
    Made no_flags 17 parent answers before
      (copy_process no_flags 17 caller parent answers 1000 before).1
copy_process-Made_example = copy_process-Made no_flags 17 caller parent answers 1000 before done

writer : Task
writer = record { pid = 7; tgid = 7; kv = some 0 }

empty_store-IsPlaced : IsPlaced empty_store
unfolding count_key
empty_store-IsPlaced k i h = (omega arith, λ _. refl)

ready :
    Ready writer
      (copy_process thread_flags 0 caller parent answers 1000 before).1.kernel
      (pos 3)
      empty_store
unfolding copy_process check_clone_flags finish_fork build_task prepare_task start_fork try acquire
    setup_task copy_parts copy_files copy_fs copy_sighand copy_signal copy_mm copy_io make_pid
    publish link_parent name_task give_kv_store hold deref writer
ready = record { found = refl; free = refl; placed = empty_store-IsPlaced }

thread_sees_write_example :
    write_kv true
        (pos 3)
        (pos 5)
        writer
        (copy_process thread_flags 0 caller parent answers 1000 before).1.kernel
      >>= (λ r.
          read_kv
            (pos 3)
            (as_task (copy_process thread_flags 0 caller parent answers 1000 before).1.child)
            r.1)
      >>= (λ r. ok r.0)
    ≡ ok (pos 5)
unfolding writer
thread_sees_write_example =
    thread_sees_write thread_flags 0 caller parent answers 1000 before (pos 3) (pos 5) writer
      empty_store refl done_thread refl ready

abbrev state_of : Outcome → St
state_of (next s) = s
state_of (goto l e s) = s

abbrev prepared : St
prepared = state_of (prepare_task no_flags parent refused 1000 before)

prepares : prepare_task no_flags parent refused 1000 before ≡ next prepared
unfolding copy_process check_clone_flags finish_fork build_task prepare_task start_fork try acquire
    setup_task copy_parts copy_files copy_fs copy_sighand copy_signal copy_mm copy_io make_pid
    publish link_parent name_task give_kv_store hold
prepares = refl

passes : check_clone_flags no_flags caller ≡ none
unfolding check_clone_flags
passes = refl
