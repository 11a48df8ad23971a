-- ===== src/Vfork/Runs.antt =====
-- linux-5.15.178/kernel/fork.c: what a `vfork` gives to its parent and its child.
use oshome_work.Vfork.{
  Pair, Step, Reach, ParentAt, waiting, woken, killed, locked, cleared, leaving, returned, exited,
  running, wake, copied,
}
use oshome_work.Vfork.Sound.{Reach-IsSound, is_completing}
use oshome_work.Base.{◌≡◌, ◌⊎◌, arith, Bool, true, false, not, ◌&&◌, ◌==◌}

-- The variable of `kernel_clone` is gone when the parent has returned from it.
abbrev pub frame_there : ParentAt → Bool
frame_there returned = false
frame_there _ = true

-- The parent locks the child, or gives its reference to it back.
abbrev pub uses_child : ParentAt → Bool
uses_child woken = true
uses_child killed = true
uses_child locked = true
uses_child cleared = true
uses_child leaving = true
uses_child _ = false

-- However the steps of a parent and its `vfork` child interleave, the child points to the
-- completion, and is about to complete it, only while the parent is in `kernel_clone`, whose
-- variable it is; and the parent uses the child only while it holds a reference to it.
pub vfork_safe :
    {t : Pair}
    → Reach copied t
    → ((t.vfork_done && not (frame_there t.parent)) ≡ false)
      × ((is_completing t.child && not (frame_there t.parent)) ≡ false)
      × ((uses_child t.parent && t.usage == 0) ≡ false)
vfork_safe {t} r = let h = Reach-IsSound r in ground (arith, h)

-- Where the wait of the parent of a `vfork` is not ended by a fatal signal, the child has released
-- its memory when the parent returns.
pub vfork_released :
    {t : Pair} → Reach copied t → t.parent ≡ returned → t.was_killed ≡ false → t.released ≡ true
vfork_released {t} r e k = let h = Reach-IsSound r in ground (arith, h, e, k)

-- When the child of a `vfork` has been through `mm_release` and runs on, or has exited, a parent
-- that still waits can wake.
pub vfork_wakes :
    {t : Pair}
    → Reach copied t
    → t.parent ≡ waiting
    → (t.child ≡ running) ⊎ (t.child ≡ exited)
    → t.released ≡ true
    → Step t (record t { parent = woken })
vfork_wakes {t} r e c l = let h = Reach-IsSound r in wake t e (ground (arith, h, e, c, l))

-- When the parent has returned and the child has exited, no reference of theirs is left.
pub vfork_freed : {t : Pair} → Reach copied t → t.parent ≡ returned → t.child ≡ exited → t.usage ≡ 0
vfork_freed {t} r e c = let h = Reach-IsSound r in ground (arith, h, e, c)
