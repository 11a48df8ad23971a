-- ===== src/Exe/Race/Held.antt =====
-- linux-5.15.178/kernel/fork.c: each denial of a file has an owner, and so the copy of an executable
-- never finds a writer.
use oshome_work.Base.{ℕ, ◌+◌, ◌≤◌, ◌≡◌, refl, ◌⊎◌, inl, true, false, some, arith, holds}
use oshome_work.Exe.Race.{
  Shared, Step, deny, exchange, allow, write_lock, get, copy, warn, write_unlock, drop_copy,
  open_write, close_write, Reach, here, next, nothing,
}

-- The invariant.
pub record IsOwned (s : Shared) : Type 0 where
  pub owners : (f : ℕ) → s.denied f ≡ holds s.exe_file f + s.new f + s.old f + s.copies f
  pub apart : (f : ℕ) → (s.writers f ≡ 0) ⊎ (s.denied f ≡ 0)
  pub got : (f : ℕ) → 1 ≤ holds s.got f → 1 ≤ holds s.exe_file f + s.old f
  pub locked : (f : ℕ) → s.got ≡ some f → s.locked ≡ true
  pub quiet : s.warned ≡ false

-- The file that a fork has got is still denied.
got-denied : {s : Shared} {f : ℕ} → s.got ≡ some f → IsOwned s → 1 ≤ s.writers f → ⊥
got-denied {s} {f} e h l = ground (arith, h.got f, h.owners f, h.apart f, l, e)

Step-IsOwned : {s t : Shared} → Step s t → IsOwned s → IsOwned t
Step-IsOwned (deny s f e) h = record {
  owners = λ g. ground (arith, h.owners g, h.owners f);
  apart = λ g. ground (arith, h.apart g, e);
  got = λ g k. h.got g k;
  locked = h.locked;
  quiet = h.quiet;
}
Step-IsOwned (exchange s f l) h = record {
  owners = λ g. ground (arith, h.owners g, l);
  apart = h.apart;
  got = λ g k. ground (arith, h.got g k);
  locked = h.locked;
  quiet = h.quiet;
}
Step-IsOwned (allow s f l e) h = record {
  owners = λ g. ground (arith, h.owners g, h.owners f, l);
  apart = λ g. ground (arith, h.apart g);
  got = λ g k. ground (arith, h.got g k, h.locked g, e, k);
  locked = h.locked;
  quiet = h.quiet;
}
Step-IsOwned (write_lock s e) h = record {
  owners = h.owners;
  apart = h.apart;
  got = h.got;
  locked = λ g k. refl;
  quiet = h.quiet;
}
Step-IsOwned (get s e) h = record {
  owners = h.owners;
  apart = h.apart;
  got = λ g k. omega (arith, k);
  locked = λ g k. e;
  quiet = h.quiet;
}
Step-IsOwned (copy s f e k) h = record {
  owners = λ g. ground (arith, h.owners g, h.owners f);
  apart = λ g. ground (arith, h.apart g, k);
  got = λ g k. ground (arith, k);
  locked = λ g k. ground (arith, k);
  quiet = h.quiet;
}
Step-IsOwned (warn s f e k) h = absurd (got-denied e h k)
Step-IsOwned (write_unlock s e k) h = record {
  owners = h.owners;
  apart = h.apart;
  got = h.got;
  locked = λ g j. ground (arith, k, j);
  quiet = h.quiet;
}
Step-IsOwned (drop_copy s f l) h = record {
  owners = λ g. ground (arith, h.owners g, h.owners f, l);
  apart = λ g. ground (arith, h.apart g);
  got = h.got;
  locked = h.locked;
  quiet = h.quiet;
}
Step-IsOwned (open_write s f e) h = record {
  owners = h.owners;
  apart = λ g. ground (arith, h.apart g, e);
  got = h.got;
  locked = h.locked;
  quiet = h.quiet;
}
Step-IsOwned (close_write s f l) h = record {
  owners = h.owners;
  apart = λ g. ground (arith, h.apart g);
  got = h.got;
  locked = h.locked;
  quiet = h.quiet;
}

nothing-IsOwned : IsOwned nothing
nothing-IsOwned = record {
  owners = λ g. refl;
  apart = λ g. inl refl;
  got = λ g k. ground (arith, k);
  locked = λ g k. ground (arith, k);
  quiet = refl;
}

Reach-IsOwned : {t : Shared} → Reach nothing t → IsOwned t
Reach-IsOwned here = nothing-IsOwned
Reach-IsOwned (next r k) = Step-IsOwned k (Reach-IsOwned r)

-- However any number of `replace_mm_exe_file`, a fork, the ends of its copies and the openers of
-- files for writing interleave, the copy of an executable in a fork never finds its file open for
-- writing; each denial of a file belongs to the executable, to a call that has not finished with it
-- or to a copy; and no file is both denied and open for writing.
pub copy_never_warned :
    {t : Shared}
    → Reach nothing t
    → (t.warned ≡ false)
      × ((f : ℕ)
          → (t.denied f ≡ holds t.exe_file f + t.new f + t.old f + t.copies f)
            × ((t.writers f ≡ 0) ⊎ (t.denied f ≡ 0)))
copy_never_warned r = let h = Reach-IsOwned r in (h.quiet, λ f. (h.owners f, h.apart f))
