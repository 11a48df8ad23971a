-- ===== src/Unshare/Success.antt =====
-- linux-5.15.178/kernel/fork.c: an `unshare` that succeeds leaves the task alone with what it asked
-- for.
use oshome_work.Base.{
  ℕ, ◌≡◌, refl, ap, ◌∙◌, subst, inr, Bool, ◌||◌, Option, none, some, arith, is_some,
}
use oshome_work.Unshare.Steps.{ksys_unshare-Ends, Ends}
use oshome_work.Unshare.Parts.{
  fd_stays, fd_moved, switch_over-files, switch_over-fs, switch_over-files_count,
  switch_over-fs_users, fd_alone, fs_moved, fs_alone, fs_stays,
}
use oshome_work.Fork.Flags.{CloneFlags}
use oshome_work.Unshare.Kept.{NewFd, IsFresh, with_copies, NewFs}
use oshome_work.Unshare.{
  ksys_unshare, Sharing, implied_flags, users_of, unshare_fd, unshare_fs, commit_creds, Copies,
  swap_fs, swap_fd, switch_namespaces, switch_over, cleanup_fd, leave_ipc, Task, cleanup_fs,
}
use oshome_work.Unshare.Private.{IsCounted, IsApart, IsSwitched}

-- The other copies do not matter to the file table.
swap_fd-with_copies :
    (m n : Option ℕ) (b₁ b₂ : Bool) (s : Task)
    → ((swap_fd n (with_copies m n b₁ b₂ s)).0 ≡ (swap_fd n s).0)
      × ((swap_fd n (with_copies m n b₁ b₂ s)).1.files ≡ (swap_fd n s).1.files)
unfolding swap_fd
swap_fd-with_copies m none b₁ b₂ s = (refl, refl)
swap_fd-with_copies m (some q) b₁ b₂ s = (refl, refl)

module _ (a : Copies) (f : CloneFlags) (s : Task) (n₁ n₂ n₃ n₄ : Option ℕ) where
  -- The task after the part that cannot fail.
  unfoldable last : Task
  last = switch_over f n₁ n₂ n₃ n₄ (with_copies n₁ n₂ (is_some n₃) (is_some n₄) s)

  last-IsSwitched : a.unshare_userns ≡ inr n₃ → a.unshare_nsproxy ≡ inr n₄ → IsSwitched a f s last
  unfolding last switch_over swap_fs swap_fd cleanup_fd cleanup_fs commit_creds switch_namespaces
      leave_ipc
  last-IsSwitched e₃ e₄ = record {
    cred = λ n e. ground arith;
    nsproxy = λ n e. ground arith;
    owns_cred = ground arith;
    owns_nsproxy = ground arith;
    undo_list = λ e. ground arith;
    segments = λ e. ground arith;
  }

  last-IsApart :
      IsCounted s
      → unshare_fs a f s ≡ inr n₁
      → unshare_fd a f s ≡ inr n₂
      → NewFs n₁ s
      → NewFd n₂ s
      → IsApart f.fs f.files s last
  unfolding last
  last-IsApart c e₁ e₂ h h' =
      let u = with_copies n₁ n₂ (is_some n₃) (is_some n₄) s in
      let fs = switch_over-fs f n₁ n₂ n₃ n₄ u in
      let fs_users = switch_over-fs_users f n₁ n₂ n₃ n₄ u in
      let files = switch_over-files f n₁ n₂ n₃ n₄ u in
      let files_count = switch_over-files_count f n₁ n₂ n₃ n₄ u in
      let (old, new) = swap_fd-with_copies n₁ n₂ (is_some n₃) (is_some n₄) s in
      record {
        root_alone = λ g p k.
            let (q, k', l) = fs_alone a f s n₁ n₂ (is_some n₃) (is_some n₄) c e₁ h g p k in
            (q, fs ∙ k', ap users_of (fs_users q) ∙ l);
        root_stays = λ g. fs ∙ fs_stays a f s n₁ n₂ (is_some n₃) (is_some n₄) c e₁ h g;
        root_others =
            λ p. rw (fs, fs_users p) (fs_moved a f s n₁ n₂ (is_some n₃) (is_some n₄) c e₁ h p);
        table_alone = λ g p k.
            let (q, k', l) = fd_alone a f s n₂ c e₂ h' g p k in
            (q, files ∙ new ∙ k', files_count q ∙ rw (old) l);
        table_stays = λ g. files ∙ new ∙ fd_stays a f s n₂ e₂ g;
        table_others = λ p. rw (files, files_count p, old, new) (fd_moved a f s n₂ p e₂ h');
      }

-- What the implied flags ask for.
asks_root :
    (flags : CloneFlags) → (implied_flags flags).fs ≡ flags.fs || flags.newns || flags.newuser
unfolding implied_flags
asks_root flags = ground arith

keeps_table :
    (flags : CloneFlags) (P : Bool → Type 0) → P (implied_flags flags).files → P flags.files
unfolding implied_flags
keeps_table flags P h = h

asks_switch :
    (a : Copies) (flags : CloneFlags) (s t : Task)
    → IsSwitched a (implied_flags flags) s t
    → IsSwitched a flags s t
unfolding implied_flags
asks_switch a flags s t h = record {
  cred = h.cred;
  nsproxy = h.nsproxy;
  owns_cred = h.owns_cred;
  owns_nsproxy = h.owns_nsproxy;
  undo_list = h.undo_list;
  segments = h.segments;
}

-- For a task that is counted among the users of what it holds, with copies at fresh addresses, an
-- `unshare` that succeeds leaves it as the only user of the root directory and of the file table
-- where it asked for its own, a new mount name space or user name space asking for a root directory
-- too, with those it had where it did not, with the users that other tasks are of each as before,
-- and with the new credentials and name spaces, if any were made.
pub ksys_unshare-IsApart :
    (c : Sharing) (a : Copies) (flags : CloneFlags) (s t : Task)
    → IsFresh a s
    → IsCounted s
    → ksys_unshare c a flags s ≡ (none, t)
    → IsApart (flags.fs || flags.newns || flags.newuser) flags.files s t × IsSwitched a flags s t
unfolding Ends last
ksys_unshare-IsApart c a flags s t fresh counted q =
    let f = implied_flags flags in
    let Q = λ (u : Task).
      IsApart (flags.fs || flags.newns || flags.newuser) flags.files s u × IsSwitched a flags s u in
    subst (Ends a s Q) q (
      ksys_unshare-Ends c a flags s Q
        (record {
          leads = λ n₁ n₂ n₃ n₄ e₁ e₂ e₃ e₄ h h'. (
            subst (λ b. IsApart b flags.files s (last a f s n₁ n₂ n₃ n₄)) (asks_root flags)
                (keeps_table flags (λ b. IsApart f.fs b s (last a f s n₁ n₂ n₃ n₄))
                  (last-IsApart a f s n₁ n₂ n₃ n₄ counted e₁ e₂ h h')),
            asks_switch a flags s (last a f s n₁ n₂ n₃ n₄)
                (last-IsSwitched a f s n₁ n₂ n₃ n₄ e₃ e₄),
          );
        })
        fresh)
