-- ===== src/Clone/Same.antt =====
-- linux-5.15.178/kernel/fork.c: the older calls and `clone3` make the same task.
use oshome_work.Base.{
  ℕ, ◌+◌, ◌%◌, ◌^◌, ◌≤◌, ◌≡◌, refl, ap, ◌∙◌, ◌⊎◌, inr, Bool, true, false, not, ◌&&◌, ◌||◌, Option,
  none, some, [], arith, ltb, ◌==◌, either, either_if,
}
use oshome_work.Fork.{copy_process}
use oshome_work.Fork.State.{St}
use oshome_work.Clone.Extended.{
  UserMemory, size_ver0, args_read, copy_clone_args_from_user, has_bad_args, kargs_read, UserArgs,
  kargs_of, page_size, clone3,
}
use oshome_work.Fork.Flags.{clone3_args_valid, CloneFlags, CloneArgs, clone3_stack_valid}
use oshome_work.Clone.{
  kernel_clone, clone_args, Tracing, task_copied, Setting, lower_32_bits, signal_of, trace_of,
  without_signal, actions, Errno, clone,
}

-- The arguments of a `clone` stand in the structure of a `clone3`: the stack by its lower end and its
-- size, the signal apart from the flags, and no ids are asked for.
pub record IsSame (u : UserArgs) (f : CloneFlags) (newsp parent_tidptr child_tidptr area : ℕ)
    : Type 0 where
  pub flags : u.flags ≡ without_signal (lower_32_bits f)
  pub exit_signal : u.exit_signal ≡ signal_of (lower_32_bits f)
  pub stack : (u.stack + u.stack_size) % 2 ^ 64 ≡ newsp
  pub pidfd : u.pidfd ≡ parent_tidptr
  pub parent_tid : u.parent_tid ≡ parent_tidptr
  pub child_tid : u.child_tid ≡ child_tidptr
  pub tls : u.tls ≡ area
  pub set_tid : u.set_tid ≡ 0
  pub set_tid_size : u.set_tid_size ≡ 0
  pub cgroup : u.cgroup ≡ 0

-- An accepted stack is passed on by its upper end.
raised : CloneArgs → CloneArgs
raised a = record a { stack = (a.stack + a.stack_size) % 2 ^ 64 }

clone3_args_valid-raised :
    (access_ok : ℕ → ℕ → Bool) (a : CloneArgs)
    → (clone3_args_valid access_ok a).0 ≡ true
    → (clone3_args_valid access_ok a).1 ≡ raised a
unfolding clone3_args_valid clone3_stack_valid raised
clone3_args_valid-raised access_ok a =
    let P = λ (r : Bool × CloneArgs). r.0 ≡ true → r.1 ≡ raised a in
    let no : P (false, a) = λ q. ground arith in
    let f = a.flags in
    either P f.unknown no (
      either P (f.detached || ltb 0 f.csignal) no (
        either P (f.sighand && f.clear_sighand) no (
          either P ((f.thread || f.parent) && ltb 0 a.exit_signal) no (
            either_if P (a.stack == 0)
              (λ e.
                either_if P (ltb 0 a.stack_size) (λ e' q. ground arith)
                  (λ e' q. ap (λ n. record a { stack = n }) (ground arith)))
              (λ e.
                either P (a.stack_size == 0) no
                  (either P (not (access_ok a.stack a.stack_size)) no (λ q. refl)))))))

-- The size of the stack does not matter after that.
task_copied-stack_size :
    (a : CloneArgs) (n : ℕ) (w : Tracing) (r : Option Errno × St)
    → task_copied (record a { stack_size = n }) w r ≡ task_copied a w r
unfolding task_copied actions trace_of
task_copied-stack_size a n w (some e, t) = refl
task_copied-stack_size a n w (none, t) = refl

kernel_clone-stack_size :
    (w : Setting) (a : CloneArgs) (n : ℕ) (s : St)
    → kernel_clone w (record a { stack_size = n }) s ≡ kernel_clone w a s
unfolding kernel_clone
kernel_clone-stack_size w a n s =
    rw
      (task_copied-stack_size a n w.tracing
        (copy_process a.flags a.exit_signal w.caller w.parent w.answers w.max_threads s))
      refl

raised-clone_args :
    (u : UserArgs) (f : CloneFlags) (newsp parent_tidptr child_tidptr tls : ℕ)
    → IsSame u f newsp parent_tidptr child_tidptr tls
    → raised (kargs_of u [])
      ≡ record (clone_args f newsp parent_tidptr child_tidptr tls) { stack_size = u.stack_size }
unfolding raised
raised-clone_args u f newsp parent_tidptr child_tidptr tls h = λ i. record {
  flags = h.flags i;
  exit_signal = h.exit_signal i;
  stack = h.stack i;
  stack_size = u.stack_size;
  pidfd = h.pidfd i;
  parent_tid = h.parent_tid i;
  io_thread = false;
  child_tid = h.child_tid i;
  tls = h.tls i;
  set_tid = [];
  set_tid_size = h.set_tid_size i;
  cgroup = h.cgroup i;
}

-- Once the structure is read and accepted.
kargs_read-clone :
    (w : Setting) (m : UserMemory) (u : UserArgs) (f : CloneFlags)
    (newsp parent_tidptr child_tidptr tls : ℕ) (s : St)
    → IsSame u f newsp parent_tidptr child_tidptr tls
    → (clone3_args_valid m.access_ok (kargs_of u [])).0 ≡ true
    → kargs_read w m (inr (kargs_of u [])) s ≡ clone w f newsp parent_tidptr child_tidptr tls s
unfolding kargs_read clone
kargs_read-clone w m u f newsp parent_tidptr child_tidptr tls s h valid =
    let k =
      clone3_args_valid-raised m.access_ok (kargs_of u []) valid
      ∙ raised-clone_args u f newsp parent_tidptr child_tidptr tls h in
    rw (valid, k)
      (kernel_clone-stack_size w (clone_args f newsp parent_tidptr child_tidptr tls) u.stack_size s)

-- A structure that passes the checks is read as it is.
args_read-kargs_of :
    (m : UserMemory) (size : ℕ) (u : UserArgs)
    → size ≤ page_size
    → size_ver0 ≤ size
    → m.copy_struct_from_user size ≡ inr u
    → has_bad_args m size u ≡ false
    → u.set_tid ≡ 0
    → copy_clone_args_from_user m size ≡ inr (kargs_of u [])
unfolding copy_clone_args_from_user args_read
args_read-kargs_of m size u l l' e good zero_tid =
    let P = λ (r : Errno ⊎ CloneArgs). r ≡ inr (kargs_of u []) in
    either_if P (ltb page_size size) (λ q. absurd (ground arith))
      (λ q.
        either_if P (ltb size size_ver0) (λ q'. absurd (ground arith))
          (λ q'.
            rw (e)
              (either_if P (has_bad_args m size u) (λ b. ground arith) (λ b. rw (zero_tid) refl))))

-- A `clone3` whose structure has the arguments of a `clone`, the stack by its lower end and size,
-- and no process ids, and whose size and checks let it through, passes on the arguments of that
-- `clone` but for the size of the stack, and has the same result, state and actions.
pub clone3-clone :
    (w : Setting) (m : UserMemory) (size : ℕ) (u : UserArgs) (f : CloneFlags)
    (newsp parent_tidptr child_tidptr tls : ℕ) (s : St)
    → IsSame u f newsp parent_tidptr child_tidptr tls
    → size ≤ page_size
    → size_ver0 ≤ size
    → m.copy_struct_from_user size ≡ inr u
    → has_bad_args m size u ≡ false
    → (clone3_args_valid m.access_ok (kargs_of u [])).0 ≡ true
    → ((clone3_args_valid m.access_ok (kargs_of u [])).1
        ≡ record (clone_args f newsp parent_tidptr child_tidptr tls) { stack_size = u.stack_size })
      × (clone3 w m size s ≡ clone w f newsp parent_tidptr child_tidptr tls s)
unfolding clone3
clone3-clone w m size u f newsp parent_tidptr child_tidptr tls s h l l' e good valid = (
  clone3_args_valid-raised m.access_ok (kargs_of u []) valid
      ∙ raised-clone_args u f newsp parent_tidptr child_tidptr tls h,
  ap (λ r. kargs_read w m r s) (args_read-kargs_of m size u l l' e good h.set_tid)
      ∙ kargs_read-clone w m u f newsp parent_tidptr child_tidptr tls s h valid,
)
