-- ===== src/Walk/Order.antt =====
-- linux-5.15.178/kernel/fork.c: `walk_process_tree` ends, and visits the processes in the order of the
-- recursion over the tree.
use oshome_work.Base.{
  ℕ, zero, suc, ◌+◌, ◌≡◌, refl, sym, ap, ◌∙◌, subst, ◌≢◌, Option, some, List, [], ◌∷◌, ◌++◌, arith,
}
use oshome_work.Walk.Tree.{
  thread_ids, visit_threads, no_children, no_threads, IsThreads, IsProcess, child_ids,
  visit_children, visit_process, Children, Threads, IsChildren, IsNew, IsDistinct, Visit, then,
  going, stopped, child, process, thread, result,
}
use oshome_work.Walk.{
  walk_process_tree, stop, skip, enter, Place, Verdict, Tasks, walk, after, place, up, down,
}

after-IsNew : (a : ℕ) (before rest : List ℕ) → IsNew a before → after a (before ++ a ∷ rest) ≡ rest
after-IsNew a [] rest h = ground arith
after-IsNew a (x ∷ before) rest (ne, h) = ground (arith, after-IsNew a before rest h)

IsDistinct-IsNew :
    (before : List ℕ) (a : ℕ) (rest : List ℕ) → IsDistinct (before ++ a ∷ rest) → IsNew a before
IsDistinct-IsNew [] a rest h = tt
IsDistinct-IsNew (x ∷ before) a rest (n, h) =
    ((λ e. differs before n (sym e)), IsDistinct-IsNew before a rest h)
  where
    differs : (ys : List ℕ) → IsNew x (ys ++ a ∷ rest) → a ≢ x
    differs [] (ne, m) = ne
    differs (y ∷ ys) (ne, m) = differs ys m

-- `after` at an element of a list without repetitions.
after-IsDistinct :
    (xs before : List ℕ) (a : ℕ) (rest : List ℕ)
    → xs ≡ before ++ a ∷ rest
    → IsDistinct xs
    → after a xs ≡ rest
after-IsDistinct xs before a rest e h =
    rw e (after-IsNew a before rest (IsDistinct-IsNew before a rest (subst IsDistinct e h)))

append_one : (xs : List ℕ) (a : ℕ) (ys : List ℕ) → xs ++ a ∷ ys ≡ (xs ++ a ∷ []) ++ ys
append_one [] a ys = refl
append_one (x ∷ xs) a ys = ap (λ zs. x ∷ zs) (append_one xs a ys)

module _ {S : Type 0} (tasks : Tasks) (visitor : ℕ → S → Verdict × S) (top : ℕ) where
  -- Where the walk stands after a part of the tree was visited.
  abbrev continue : ℕ → Visit S → Place → Option S
  continue k (going s) at_ = walk tasks visitor top k at_ s
  continue k (stopped s) at_ = some s

  -- Some number of rounds brings the walk from one place to the other.
  abbrev Brings : Place → S → Visit S → Place → Type 0
  Brings from s v to = (n : ℕ) × ((k : ℕ) → walk tasks visitor top (n + k) from s ≡ continue k v to)

  one_round :
      (from next to : Place) (s t : S) (v : Visit S)
      → ((k : ℕ) → walk tasks visitor top (suc k) from s ≡ walk tasks visitor top k next t)
      → Brings next t v to
      → Brings from s v to
  one_round from next to s t v round (n, run) =
      (suc n, λ k. let e : suc n + k ≡ suc (n + k) = omega arith in rw e (round (n + k) ∙ run k))

  and_then :
      (from middle to : Place) (s : S) (v : Visit S) (f : S → Visit S)
      → Brings from s v middle
      → ((t : S) → Brings middle t (f t) to)
      → Brings from s (then v f) to
  and_then from middle to s (going t) f (n, run) h =
      let (m, more) = h t in
      (n + m, λ k. let e : n + m + k ≡ n + (m + k) = omega arith in rw e (run (m + k) ∙ more k))
  and_then from middle to s (stopped t) f (n, run) h = (n, run)

  and_climb :
      (from middle to : Place) (s : S) (v : Visit S)
      → Brings from s v middle
      → ((t : S) → Brings middle t (going t) to)
      → Brings from s v to
  and_climb from middle to s (going t) run h = and_then from middle to s (going t) going run h
  and_climb from middle to s (stopped t) run h = run

  -- The end of a process looks the same from each of its threads.
  end_of :
      (k p q : ℕ) (s : S)
      → walk tasks visitor top k (place p q [] []) s ≡ walk tasks visitor top k (place p p [] []) s
  unfolding walk
  end_of zero p q s = refl
  end_of (suc k) p q s = refl

  stay : (at_ : Place) (s : S) → Brings at_ s (going s) at_
  stay at_ s = (0, λ k. ap (λ n. walk tasks visitor top n at_ s) (omega arith))

  -- From the end of a process that is not `top` back to where its parent's loop goes on.
  climb :
      (leader parent p : ℕ) (before rest ts : List ℕ) (s : S)
      → p ≢ top
      → tasks.real_parent p ≡ parent
      → tasks.group_leader parent ≡ leader
      → tasks.children parent ≡ before ++ p ∷ rest
      → IsDistinct (tasks.children parent)
      → after parent (tasks.threads leader) ≡ ts
      → Brings (place p p [] []) s (going s) (place leader parent rest ts)
  unfolding walk
  climb leader parent p before rest ts s ne e g cs d e' =
      let here = place leader parent rest ts in
      let there : up tasks p ≡ here = rw (e, g, e', after-IsDistinct _ before p rest cs d) refl in
      one_round (place p p [] []) here here s s (going s)
        (λ k. ground (arith, ne) ∙ ap (λ (q : Place). walk tasks visitor top k q s) there)
        (stay here s)

  visit_one :
      (leader parent p : ℕ) (rest ts : List ℕ) (pts : Threads) (s : S)
      → ((t : S)
          → Brings (down tasks p) t (visit_threads visitor pts t) (place leader parent rest ts))
      → (v : Verdict) → (visitor p s).0 ≡ v
      → Brings
          (place leader parent (p ∷ rest) ts)
          s
          (visit_process visitor (process p pts) s)
          (place leader parent rest ts)
  unfolding walk visit_process
  visit_one leader parent p rest ts pts s h v e =
      subst (λ r. Brings (place leader parent (p ∷ rest) ts) s r (place leader parent rest ts))
        (sym (visited v e)) (moves v e)
    where
      answer : Verdict → Visit S
      answer stop = stopped (visitor p s).1
      answer skip = going (visitor p s).1
      answer enter = visit_threads visitor pts (visitor p s).1

      visited :
          (w : Verdict) → (visitor p s).0 ≡ w → visit_process visitor (process p pts) s ≡ answer w
      visited stop q = ground (arith, q)
      visited skip q = ground (arith, q)
      visited enter q = ground (arith, q)

      moves :
          (w : Verdict)
          → (visitor p s).0 ≡ w
          → Brings (place leader parent (p ∷ rest) ts) s (answer w) (place leader parent rest ts)
      moves stop q = (1, λ k. let n : 1 + k ≡ suc k = omega arith in rw n (ground (arith, q)))
      moves skip q =
          one_round (place leader parent (p ∷ rest) ts) (place leader parent rest ts)
            (place leader parent rest ts) s (visitor p s).1 (going (visitor p s).1)
            (λ k. ground (arith, q)) (stay (place leader parent rest ts) (visitor p s).1)
      moves enter q =
          one_round (place leader parent (p ∷ rest) ts) (down tasks p) (place leader parent rest ts)
            s (visitor p s).1 (answer enter) (λ k. ground (arith, q)) (h (visitor p s).1)

  mutual
    unfolding walk visit_process IsProcess

    children_run :
        (leader parent : ℕ) (before ts : List ℕ) (cs : Children)
        → tasks.group_leader parent ≡ leader
        → after parent (tasks.threads leader) ≡ ts
        → tasks.children parent ≡ before ++ child_ids cs
        → IsDistinct (tasks.children parent)
        → IsChildren tasks top parent cs
        → (s : S)
        → Brings
            (place leader parent (child_ids cs) ts)
            s
            (visit_children visitor cs s)
            (place leader parent [] ts)
    children_run leader parent before ts no_children g e h d w s = stay _ s
    children_run leader parent before ts (child (process p pts) cs) g e h d (e', ne, wp, w) s =
        and_then _ (place leader parent (child_ids cs) ts) _ s _ _
          (visit_one leader parent p (child_ids cs) ts pts s
            (λ t.
              and_climb (down tasks p) (place p p [] []) (place leader parent (child_ids cs) ts) t
                (visit_threads visitor pts t)
                (subst
                  (λ xs. Brings (place p p [] xs) t (visit_threads visitor pts t) (place p p [] []))
                  (sym wp.0)
                  (threads_run p p [] pts wp.0 (subst IsDistinct (sym wp.0) wp.1) wp.2 t))
                (λ u. climb leader parent p before (child_ids cs) ts u ne e' g h d e))
            (visitor p s).0 refl)
          (children_run leader parent (before ++ p ∷ []) ts cs g e
            (h ∙ append_one before p (child_ids cs)) d w)

    threads_run :
        (p q : ℕ) (before : List ℕ) (ts : Threads)
        → tasks.threads p ≡ before ++ thread_ids ts
        → IsDistinct (tasks.threads p)
        → IsThreads tasks top p ts
        → (s : S)
        → Brings (place p q [] (thread_ids ts)) s (visit_threads visitor ts s) (place p p [] [])
    threads_run p q before no_threads h d w s = (
      0,
      λ k. ap (λ n. walk tasks visitor top n (place p q [] []) s) (omega arith) ∙ end_of k p q s,
    )
    threads_run p q before (thread t cs ts) h d (g, e, d', wc, w) s =
        one_round _ (place p t (child_ids cs) (thread_ids ts)) _ s s _
          (λ k. ap (λ xs. walk tasks visitor top k (place p t xs (thread_ids ts)) s) e)
          (and_then _ (place p t [] (thread_ids ts)) _ s _ _
            (children_run p t [] (thread_ids ts) cs g
              (after-IsDistinct _ before t (thread_ids ts) h d) e (subst IsDistinct (sym e) d') wc
              s)
            (threads_run p t (before ++ t ∷ []) ts (h ∙ append_one before t (thread_ids ts)) d w))

finish :
    {S : Type 0} (tasks : Tasks) (visitor : ℕ → S → Verdict × S) (top k : ℕ) (v : Visit S)
    → continue tasks visitor top (suc k) v (place top top [] []) ≡ some (result v)
unfolding walk
finish tasks visitor top k (going s) = ground arith
finish tasks visitor top k (stopped s) = refl

-- Over tasks that describe a tree of processes, some number of rounds suffices for
-- `walk_process_tree`, and with any more rounds it ends with the state of the recursive visit: each
-- child of each thread in order, below a child where the visitor says so, up to where it stops.
pub walk_process_tree-visit_threads :
    {S : Type 0} (tasks : Tasks) (visitor : ℕ → S → Verdict × S) (task : ℕ) (ts : Threads) (s : S)
    → IsProcess tasks (tasks.group_leader task) (process (tasks.group_leader task) ts)
    → (rounds : ℕ) × ((more : ℕ)
        → walk_process_tree tasks visitor (rounds + more) task s
          ≡ some (result (visit_threads visitor ts s)))
unfolding walk_process_tree walk IsProcess
walk_process_tree-visit_threads tasks visitor task ts s (e, d, w) =
    let top = tasks.group_leader task in
    let (n, run) = threads_run tasks visitor top top top [] ts e (subst IsDistinct (sym e) d) w s in
    (
      n + 1,
      λ k.
          let rounds : n + 1 + k ≡ n + suc k = omega arith in
          ap (λ m. walk tasks visitor top m (down tasks top) s) rounds
          ∙ ap (λ xs. walk tasks visitor top (n + suc k) (place top top [] xs) s) e
          ∙ run (suc k)
          ∙ finish tasks visitor top k (visit_threads visitor ts s),
    )
