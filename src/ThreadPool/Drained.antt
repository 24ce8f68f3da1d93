-- ===== src/ThreadPool/Drained.antt =====
-- What a ThreadPool of include/tradier/common/async.hpp has done when shutdown() has joined its workers.
use mathlib.Core.List.{append_assoc, append-nil}
use libtradier.Base.{
  ℕ, zero, suc, ◌≡◌, ◌<◌, refl, sym, ap, ◌∙◌, true, false, ◌||◌, List, [], ◌∷◌, ◌++◌, arith, length,
  length-append,
}
use libtradier.ThreadPool.{
  Worker, idle, running, returned, ThreadPool, idle_workers, thread_pool, has_returned,
  any_returned, all_returned, Step, Steps, enqueue, enqueue_refused, take, finish, leave, stop,
  clear, here, then,
}

any-append : (xs ys : List Worker) → any_returned (xs ++ ys) ≡ (any_returned xs || any_returned ys)
any-append [] ys = refl
any-append (returned ∷ xs) ys = refl
any-append (idle ∷ xs) ys = any-append xs ys
any-append (running t ∷ xs) ys = any-append xs ys

same-any :
    (before after : List Worker) (x y : Worker)
    → has_returned x ≡ has_returned y
    → any_returned (before ++ x ∷ after) ≡ any_returned (before ++ y ∷ after)
same-any before after x y h =
    any-append before (x ∷ after)
    ∙ ap (λ b. any_returned before || (b || any_returned after)) h
    ∙ sym (any-append before (y ∷ after))

all-any : (ws : List Worker) → 0 < length ws → all_returned ws ≡ true → any_returned ws ≡ true
all-any [] h a = absurd (omega arith)
all-any (returned ∷ ws) h a = refl
all-any (idle ∷ ws) h a = cc
all-any (running t ∷ ws) h a = cc

inside : (before after : List Worker) (x : Worker) → 0 < length (before ++ x ∷ after)
inside before after x = omega (arith, length-append before (x ∷ after))

pub record IsFair (p : ThreadPool) : Type 0 where
  -- first in, first out, each task once
  pub in_order : p.accepted ≡ p.taken ++ p.tasks
  -- A worker returns only when nothing is left, and from then on nothing comes.
  pub drained : any_returned p.workers ≡ true → (p.stopped ≡ true) × (p.tasks ≡ [])
  pub some_worker : 0 < length p.workers

pub Step-IsFair : {p q : ThreadPool} → Step p q → IsFair p → IsFair q
Step-IsFair {p} (enqueue t s) h = record {
  in_order = ap (λ xs. xs ++ t ∷ []) h.in_order ∙ append_assoc p.taken p.tasks (t ∷ []);
  drained = λ any. (let (stopped, e) = h.drained any in cc (s, stopped));
  some_worker = h.some_worker;
}
Step-IsFair (enqueue_refused s) h = h
Step-IsFair {p} (take before after t rest w e) h = record {
  in_order = h.in_order ∙ ap (λ xs. p.taken ++ xs) e ∙ sym (append_assoc p.taken (t ∷ []) rest);
  drained = λ any.
      (let (stopped, empty) =
          h.drained (ap any_returned w ∙ same-any before after idle (running t) refl ∙ any) in
        cc (e, empty));
  some_worker = inside before after (running t);
}
Step-IsFair (finish before after t w) h = record {
  in_order = h.in_order;
  drained =
      λ any. h.drained (ap any_returned w ∙ same-any before after (running t) idle refl ∙ any);
  some_worker = inside before after idle;
}
Step-IsFair (leave before after w s e) h = record {
  in_order = h.in_order;
  drained = λ any. (s, e);
  some_worker = inside before after returned;
}
Step-IsFair stop h = record {
  in_order = h.in_order;
  drained = λ any. (refl, (h.drained any).1);
  some_worker = h.some_worker;
}
Step-IsFair {p} (clear s a) h = record {
  in_order =
      h.in_order ∙ ap (λ xs. p.taken ++ xs) (h.drained (all-any p.workers h.some_worker a)).1;
  drained = λ any. (s, refl);
  some_worker = h.some_worker;
}

none_returned : (n : ℕ) → any_returned (idle_workers n) ≡ false
unfolding idle_workers
none_returned zero = refl
none_returned (suc n) = none_returned n

new-IsFair : (n : ℕ) → IsFair (thread_pool n)
unfolding thread_pool
new-IsFair zero = record { in_order = refl; drained = λ any. cc; some_worker = omega arith }
new-IsFair (suc n) = record {
  in_order = refl;
  drained = λ any. cc (any, none_returned n);
  some_worker = omega arith;
}

Steps-IsFair : (n : ℕ) {p : ThreadPool} → Steps (thread_pool n) p → IsFair p
Steps-IsFair n here = new-IsFair n
Steps-IsFair n (then r st) = Step-IsFair st (Steps-IsFair n r)

-- However the threads interleave, the tasks that the workers of a pool take off the queue are those
-- that enqueue accepted, in that order, each at most once; and when every worker has returned, as
-- shutdown() waits for, the pool is stopped, every task that was accepted has been taken, none is
-- left, and what shutdown() clears is nothing.
pub shutdown_drains :
    (n : ℕ) {p : ThreadPool}
    → Steps (thread_pool n) p
    → (p.accepted ≡ p.taken ++ p.tasks)
      × (all_returned p.workers ≡ true
          → (p.stopped ≡ true) × (p.tasks ≡ []) × (p.accepted ≡ p.taken))
shutdown_drains n {p} r =
    let h = Steps-IsFair n r in
    (
      h.in_order,
      λ all.
          (let (stopped, empty) = h.drained (all-any p.workers h.some_worker all) in
            (stopped, empty, h.in_order ∙ ap (λ xs. p.taken ++ xs) empty ∙ append-nil p.taken)),
    )
