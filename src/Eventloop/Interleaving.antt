-- ===== src/Eventloop/Interleaving.antt =====
-- eventloop.go: no task is lost, run twice or overtaken, and no wakeup is lost.
use muduo_go.Prelude.{
  ℕ, suc, ◌+◌, ◌<◌, ◌≡◌, ◌≢◌, refl, sym, ap, ◌∙◌, List, [], ◌∷◌, ◌++◌, arith, length, append_assoc,
  append-nil,
}
use muduo_go.Eventloop.{
  Eventloop, polling, dispatching, running, new_eventloop, push_task, wakeup, poll_returns,
  handle_read, take_pending, run_next, next_round,
}

-- One step of a goroutine. AsyncExecute may be called at any time, also by a task that runs.
pub data Step (el : Eventloop) : Eventloop → Type 0 where
  do_push : (a : ℕ) → Step el (push_task a el)
  do_wakeup : (n : ℕ) → el.wakers ≡ suc n → Step el (wakeup n el)
  do_poll : el.phase ≡ polling → Step el (poll_returns el)
  do_read : el.phase ≡ dispatching → Step el (handle_read el)
  do_take : el.phase ≡ dispatching → Step el (take_pending el)
  do_run :
      (a : ℕ) (rest : List ℕ)
      → el.phase ≡ running
      → el.batch ≡ a ∷ rest
      → Step el (run_next a rest el)
  do_round : el.phase ≡ running → el.batch ≡ [] → Step el (next_round el)

pub data Reach (el : Eventloop) : Eventloop → Type 0 where
  here : Reach el el
  next : {d e : Eventloop} → Reach el d → Step d e → Reach el e

-- Each task is run, in the batch or pending, once and in the order of the calls; and there is a
-- wakeup, or one to come, for the tasks that came after the last swap.
record IsFair (el : Eventloop) : Type 0 where
  order : el.posted ≡ el.ran ++ (el.batch ++ el.pending_tasks)
  awake : el.phase ≢ dispatching → 0 < length el.pending_tasks → 0 < el.evt_count + el.wakers
  batched : el.phase ≢ running → el.batch ≡ []

push-order :
    (a : ℕ) (posted ran batch pending_tasks : List ℕ)
    → posted ≡ ran ++ (batch ++ pending_tasks)
    → posted ++ a ∷ [] ≡ ran ++ (batch ++ (pending_tasks ++ a ∷ []))
push-order a posted ran batch pending_tasks h =
    ap (λ xs. xs ++ a ∷ []) h
    ∙ append_assoc ran (batch ++ pending_tasks) (a ∷ [])
    ∙ ap (λ xs. ran ++ xs) (append_assoc batch pending_tasks (a ∷ []))

polling_running : polling ≢ running
polling_running e = ground arith

polling_dispatching : polling ≢ dispatching
polling_dispatching e = ground arith

dispatching_running : dispatching ≢ running
dispatching_running e = ground arith

Step-IsFair : {el d : Eventloop} → Step el d → IsFair el → IsFair d
unfolding push_task wakeup poll_returns handle_read take_pending run_next next_round
Step-IsFair {el} (do_push a) v = record {
  order = push-order a el.posted el.ran el.batch el.pending_tasks v.order;
  awake = λ ne p. omega arith;
  batched = v.batched;
}
Step-IsFair {el} (do_wakeup n h) v = record {
  order = v.order;
  awake = λ ne p. omega (arith, v.awake ne p);
  batched = v.batched;
}
Step-IsFair {el} (do_poll h) v = record {
  order = v.order;
  awake = λ ne p. absurd (ne refl);
  batched = λ ne. v.batched (λ e. polling_running (sym h ∙ e));
}
Step-IsFair {el} (do_read h) v = record {
  order = v.order;
  awake = λ ne p. absurd (ne h);
  batched = v.batched;
}
Step-IsFair {el} (do_take h) v = record {
  order =
      v.order
      ∙ rw (v.batched (λ e. dispatching_running (sym h ∙ e)))
          (ap (λ xs. el.ran ++ xs) (sym (append-nil el.pending_tasks)));
  awake = λ ne p. absurd (omega arith);
  batched = λ ne. absurd (ne refl);
}
Step-IsFair {el} (do_run a rest h e) v = record {
  order = v.order ∙ rw e (sym (append_assoc el.ran (a ∷ []) (rest ++ el.pending_tasks)));
  awake = v.awake;
  batched = λ ne. absurd (ne h);
}
Step-IsFair {el} (do_round h e) v = record {
  order = v.order;
  awake = λ ne p. v.awake (λ d. dispatching_running (sym d ∙ h)) p;
  batched = λ ne. e;
}

Reach-IsFair : {el d : Eventloop} → Reach el d → IsFair el → IsFair d
Reach-IsFair here v = v
Reach-IsFair (next r s) v = Step-IsFair s (Reach-IsFair r v)

new_eventloop-IsFair : IsFair new_eventloop
unfolding new_eventloop
new_eventloop-IsFair = record {
  order = refl;
  awake = λ ne p. absurd (omega arith);
  batched = λ ne. refl;
}

-- In every state that a new loop reaches, however the calls of AsyncExecute interleave with it, the
-- tasks given to AsyncExecute are those that were run, those left of the batch and the pending
-- ones, in this order: each task is run at most once, in the order of the calls, and none is
-- dropped.
pub tasks_in_order :
    {el : Eventloop} → Reach new_eventloop el → el.posted ≡ el.ran ++ (el.batch ++ el.pending_tasks)
tasks_in_order r = (Reach-IsFair r new_eventloop-IsFair).order

-- In every state that a new loop reaches in which its goroutine is in epoll_wait, the batch is
-- empty, and if a task is pending, the counter of the eventfd is positive or a call of AsyncExecute
-- is about to add to it: the loop does not sleep on a pending task.
pub no_lost_wakeup :
    {el : Eventloop}
    → Reach new_eventloop el
    → el.phase ≡ polling
    → (el.batch ≡ []) × (0 < length el.pending_tasks → 0 < el.evt_count + el.wakers)
no_lost_wakeup r h =
    let v = Reach-IsFair r new_eventloop-IsFair in
    (v.batched (λ e. polling_running (sym h ∙ e)), v.awake (λ e. polling_dispatching (sym h ∙ e)))
