-- ===== src/Vfork/Sound.antt =====
-- linux-5.15.178/kernel/fork.c: what holds however the steps of a `vfork` interleave.
use oshome_work.Vfork.{
  Pair, Step, Reach, ParentAt, ChildAt, Holder, forking, waiting, woken, killed, locked, cleared,
  leaving, returned, asleep, entered, holding, completing, completed, exited, nobody, by_parent,
  by_child, set_up, wake, signal, lock, clear, unlock, put_woken, put_killed, release,
  release_nothing, child_lock, take, take_nothing, complete, child_unlock, exit, here, next, copied,
}
use oshome_work.Base.{ℕ, ◌+◌, ◌≡◌, arith, Bool, true, false, ◌&&◌, ◌||◌, if◌then◌else◌}

-- The variable of the parent's `kernel_clone` is there, and may be pointed to.
abbrev pub is_exposed : ParentAt → Bool
is_exposed waiting = true
is_exposed killed = true
is_exposed locked = true
is_exposed _ = false

abbrev pub parent_holds : ParentAt → Bool
parent_holds locked = true
parent_holds cleared = true
parent_holds _ = false

abbrev pub child_holds : ChildAt → Bool
child_holds holding = true
child_holds completing = true
child_holds completed = true
child_holds _ = false

abbrev pub holder_of : ParentAt → ChildAt → Holder
holder_of p c = if parent_holds p then by_parent else (if child_holds c then by_child else nobody)

abbrev pub is_completing : ChildAt → Bool
is_completing completing = true
is_completing _ = false

abbrev pub in_release : ChildAt → Bool
in_release entered = true
in_release c = child_holds c

abbrev pub one_if : Bool → ℕ
one_if true = 1
one_if false = 0

-- The references to the child: its own, and the parent's.
abbrev pub has_own : ChildAt → Bool
has_own exited = false
has_own _ = true

abbrev pub has_parents : ParentAt → Bool
has_parents forking = false
has_parents returned = false
has_parents _ = true

abbrev pub before_wait : ParentAt → Bool
before_wait forking = true
before_wait _ = false

abbrev pub sleeps : ChildAt → Bool
sleeps asleep = true
sleeps _ = false

-- On the way from the test of `vfork_done` to taking it.
abbrev pub will_take : ChildAt → Bool
will_take entered = true
will_take holding = true
will_take _ = false

abbrev pub in_kill : ParentAt → Bool
in_kill killed = true
in_kill locked = true
in_kill cleared = true
in_kill leaving = true
in_kill _ = false

-- The invariant: who holds the lock; the completion that is pointed to or being completed is there;
-- the references; the child has released its memory once it is in `mm_release`; nobody waits for a
-- completion that nobody will complete.
abbrev pub IsSound : Pair → Type 0
IsSound s =
    (s.task_lock ≡ holder_of s.parent s.child)
    × (parent_holds s.parent && child_holds s.child ≡ false)
    × (s.vfork_done ≡ true → is_exposed s.parent ≡ true)
    × (is_completing s.child ≡ true → is_exposed s.parent ≡ true)
    × (sleeps s.child ≡ before_wait s.parent)
    × (s.usage ≡ one_if (has_own s.child) + one_if (has_parents s.parent))
    × (in_release s.child ≡ true → s.released ≡ true)
    × (s.done ≡ true → s.released ≡ true)
    × (s.parent ≡ woken → s.done ≡ true)
    × (s.parent ≡ waiting → (s.vfork_done || is_completing s.child || s.done) ≡ true)
    × (s.child ≡ exited → s.released ≡ true)
    × (s.parent ≡ returned → s.was_killed ≡ false → s.released ≡ true)
    × (in_kill s.parent ≡ true → s.was_killed ≡ true)
    × (s.released ≡ true → s.vfork_done ≡ true → will_take s.child ≡ true)
    × (sleeps s.child ≡ true → s.released ≡ false)
    × (s.done ≡ true → s.vfork_done || is_completing s.child ≡ false)
    × (is_completing s.child ≡ true → s.vfork_done ≡ false)

Step-IsSound : {s t : Pair} → Step s t → IsSound s → IsSound t
Step-IsSound (set_up s e₁ e₂) h = ground (arith, h, e₁, e₂)
Step-IsSound (wake s e₁ e₂) h = ground (arith, h, e₁, e₂)
Step-IsSound (signal s e₁) h = ground (arith, h, e₁)
Step-IsSound (lock s e₁ e₂) h = ground (arith, h, e₁, e₂)
Step-IsSound (clear s e₁) h = ground (arith, h, e₁)
Step-IsSound (unlock s e₁) h = ground (arith, h, e₁)
Step-IsSound (put_woken s e₁) h = ground (arith, h, e₁)
Step-IsSound (put_killed s e₁) h = ground (arith, h, e₁)
Step-IsSound (release s e₁ e₂) h = ground (arith, h, e₁, e₂)
Step-IsSound (release_nothing s e₁ e₂) h = ground (arith, h, e₁, e₂)
Step-IsSound (child_lock s e₁ e₂) h = ground (arith, h, e₁, e₂)
Step-IsSound (take s e₁ e₂) h = ground (arith, h, e₁, e₂)
Step-IsSound (take_nothing s e₁ e₂) h = ground (arith, h, e₁, e₂)
Step-IsSound (complete s e₁) h = ground (arith, h, e₁)
Step-IsSound (child_unlock s e₁) h = ground (arith, h, e₁)
Step-IsSound (exit s e₁ e₂) h = ground (arith, h, e₁, e₂)

copied-IsSound : IsSound copied
copied-IsSound = ground arith

pub Reach-IsSound : {t : Pair} → Reach copied t → IsSound t
Reach-IsSound here = copied-IsSound
Reach-IsSound (next r st) = Step-IsSound st (Reach-IsSound r)
