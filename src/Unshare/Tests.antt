-- ===== src/Unshare/Tests.antt =====
-- linux-5.15.178/kernel/fork.c: a task that holds the root directory 7, with two users, and the file
-- table 9, with three; the copies are 70 and 90, the new credentials 50 and the name spaces 60.
use oshome_work.Base.{
  ◌≡◌, refl, ◌⊎◌, inr, true, false, ◌||◌, Option, none, some, arith, ◌==◌, if◌then◌else◌,
}
use oshome_work.Unshare.Files.{unshare_files-HasOwn, HasOwn, unshare_files}
use oshome_work.Unshare.Success.{ksys_unshare-IsApart}
use oshome_work.Fork.Flags.{CloneFlags, eagain, Errno}
use oshome_work.Unshare.Kept.{IsFresh, IsKept}
use oshome_work.Fork.Fixtures.{no_flags}
use oshome_work.Unshare.Steps.{ksys_unshare-IsKept}
use oshome_work.Unshare.Private.{IsApart, IsSwitched, IsCounted}
use oshome_work.Unshare.{
  cred_unshared, check_unshare_flags, fs_unshared, add_fs, switch_over, swap_fs, cred_charged,
  free_fs, cleanup_fd, unshare_fd, fd_unshared, add_fd, swap_fd, unshare_fs, ns_unshared, put_fd,
  Copies, ksys_unshare, Sharing, Task, cleanup_fs,
}

abbrev alone : Sharing
alone = record { thread_group_empty = true; sighand_count = 1; single_threaded = true }

abbrev caller : Task
caller = record {
  fs = some 7;
  files = some 9;
  cred = 5;
  nsproxy = 6;
  fs_users = λ p. if p == 7 then some 2 else none;
  files_count = λ p. if p == 9 then 3 else 0;
  owns_cred = false;
  owns_nsproxy = false;
  left_undo_list = false;
  left_segments = false;
}

abbrev copies : Option Errno → Copies
copies o = record {
  copy_fs_struct = some 70;
  dup_fd = inr 90;
  unshare_userns = inr (some 50);
  unshare_nsproxy = inr (some 60);
  set_cred_ucounts = o;
}

abbrev asked : CloneFlags
asked = record no_flags { files = true; newuser = true; newns = true; newipc = true }

copies-IsFresh : (o : Option Errno) → IsFresh (copies o) caller
copies-IsFresh o = ((λ q e. ground arith), (λ q e. ground arith), refl, refl)

caller-IsCounted : IsCounted caller
caller-IsCounted = record { fs = λ p e. ground arith; files = λ p e. ground arith }

-- A call with these copies.
abbrev run : Option Errno → Option Errno × Task
run o = ksys_unshare alone (copies o) asked caller

refused : run (some eagain) ≡ (some eagain, (run (some eagain)).1)
unfolding ksys_unshare fs_unshared fd_unshared cred_unshared ns_unshared cred_charged
    check_unshare_flags unshare_fs unshare_fd
refused = refl

granted : run none ≡ (none, (run none).1)
unfolding ksys_unshare fs_unshared fd_unshared cred_unshared ns_unshared cred_charged
    check_unshare_flags unshare_fs unshare_fd
granted = refl

ksys_unshare-IsKept_example :
    IsKept caller (run (some eagain)).1
    × (((run (some eagain)).1.owns_nsproxy ≡ false)
        ⊎ ((copies (some eagain)).set_cred_ucounts ≡ some eagain))
ksys_unshare-IsKept_example =
    ksys_unshare-IsKept alone (copies (some eagain)) asked caller (run (some eagain)).1 eagain
      (copies-IsFresh (some eagain)) refused

ksys_unshare-IsApart_example :
    IsApart (asked.fs || asked.newns || asked.newuser) asked.files caller (run none).1
    × IsSwitched (copies none) asked caller (run none).1
ksys_unshare-IsApart_example =
    ksys_unshare-IsApart alone (copies none) asked caller (run none).1 (copies-IsFresh none)
      caller-IsCounted granted

-- The old root directory and file table lose a user each, and the new ones have one.
granted_users :
    ((run none).1.fs_users 7 ≡ some 1)
    × ((run none).1.files_count 9 ≡ 2)
    × ((run none).1.fs ≡ some 70)
unfolding ksys_unshare fs_unshared fd_unshared cred_unshared ns_unshared cred_charged
    check_unshare_flags unshare_fs unshare_fd switch_over swap_fs swap_fd cleanup_fd cleanup_fs
    put_fd free_fs add_fs add_fd
granted_users = (refl, refl, refl)

-- The file table 9 has three users; the copy is 90.
unshare_files-HasOwn_example : HasOwn caller (unshare_files (copies none) caller)
unshare_files-HasOwn_example =
    unshare_files-HasOwn (copies none) caller (copies-IsFresh none).1 caller-IsCounted.files
