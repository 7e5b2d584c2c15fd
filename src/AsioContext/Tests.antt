-- ===== src/AsioContext/Tests.antt =====
-- include/ate/asio_context.hpp: a context with one pool task, a delay, a timer and a post; the post is
-- called, then the context is destroyed.
use mathlib.Core.Option.{some-injective, none-ne-some}
use async_task_engine.AsioContext.Constructor.{takes, shuts, act, submit_all, thrown}
use async_task_engine.TaskQueue.{TaskQueue, push, pop_front, try_pop, shutdown}
use async_task_engine.Common.{
  [], ◌∷◌, ℕ, ◌<◌, zero, suc, ◌≡◌, refl, sym, ap, subst, ◌∙◌, ◌⊎◌, inl, inr, Bool, true, false,
  Option, none, some, Bool-cases, update, max, if◌then◌else◌, arith, ℕ_discrete, get_elem?,
}
use async_task_engine.AsyncResult.{returned, threw}
use async_task_engine.AsioContext.{
  IoContext, Status, delayed, inside_run, run_returned, not_called, destroyed, broken_promise,
  call_handler, drop_handler, fulfil, AsioContext, create, post, async_after, delay, await_suspend,
  handle, run_turn, io_turn, destroy, is_ready,
}
use async_task_engine.AsioContext.State.{
  Reach, start, later, posts, waits, delays, runs, destroys, IsCalled, IsDropped,
}
use async_task_engine.AsioContext.Once.{destroy-filled}
use async_task_engine.AsioContext.Threads.{is_called, run-joined}
use async_task_engine.AsioContext.Ends.{two_turns, destroy_turns, destroy-Ends}

-- A context that calls the newest handler first, without errors.
record Newest : Type 0 where
  bound : ℕ
  holds : ℕ → Bool
  flags : Status

newest : ℕ → (ℕ → Bool) → Option ℕ
newest zero f = none
newest (suc n) f = let rest = newest n f in if f n then some n else rest

newest-holds : (n : ℕ) (f : ℕ → Bool) (h : ℕ) → newest n f ≡ some h → f h ≡ true
unfolding newest
newest-holds zero f h e = ground arith
newest-holds (suc n) f h e = ground (arith, newest-holds n f h)

call_found : Newest → Option ℕ → Option (ℕ × ℕ × Newest)
call_found io none = none
call_found io (some h) = some (h, 0, record io { holds = update io.holds h false })

call_newest : Newest → Option (ℕ × ℕ × Newest)
unfolding newest call_found
call_newest io = if io.flags.stopped then none else call_found io (newest io.bound io.holds)

call_found-holds :
    (io io' : Newest) (o : Option ℕ) (h ec : ℕ)
    → ((g : ℕ) → o ≡ some g → io.holds g ≡ true)
    → call_found io o ≡ some (h, ec, io')
    → (io.holds h ≡ true) × ((k : ℕ) → io'.holds k ≡ update io.holds h false k)
unfolding call_found
call_found-holds io io' none h ec held e = elim (none-ne-some _ e) [ ]
call_found-holds io io' (some g) h ec held e =
    subst (λ x. (io.holds x.0 ≡ true) × ((k : ℕ) → x.2.holds k ≡ update io.holds x.0 false k))
      (some-injective _ _ e) (held g refl, λ k. refl)

call_newest-holds :
    (io io' : Newest) (h ec : ℕ)
    → call_newest io ≡ some (h, ec, io')
    → (io.holds h ≡ true) × ((k : ℕ) → io'.holds k ≡ update io.holds h false k)
unfolding call_newest
call_newest-holds io io' h ec e = elim (Bool-cases io.flags.stopped) [
  | inl shut ↦ elim (none-ne-some _ (sym (rw shut refl) ∙ e)) [ ]
  | inr up ↦
      call_found-holds io io' (newest io.bound io.holds) h ec (newest-holds io.bound io.holds)
        (sym (ap (λ b. if b then none else call_found io (newest io.bound io.holds)) up) ∙ e)
]

call_found-flags :
    (io io' : Newest) (o : Option ℕ) (h ec : ℕ)
    → call_found io o ≡ some (h, ec, io')
    → io'.flags ≡ io.flags
unfolding call_found
call_found-flags io io' none h ec e = elim (none-ne-some _ e) [ ]
call_found-flags io io' (some g) h ec e =
    subst (λ x. x.2.flags ≡ io.flags) (some-injective _ _ e) refl

call_newest-flags :
    (io io' : Newest) (h ec : ℕ) → call_newest io ≡ some (h, ec, io') → io'.flags ≡ io.flags
unfolding call_newest
call_newest-flags io io' h ec e = elim (Bool-cases io.flags.stopped) [
  | inl shut ↦ elim (none-ne-some _ (sym (rw shut refl) ∙ e)) [ ]
  | inr up ↦
      call_found-flags io io' (newest io.bound io.holds) h ec
        (sym (ap (λ b. if b then none else call_found io (newest io.bound io.holds)) up) ∙ e)
]

call_newest-stopped : (io : Newest) → io.flags.stopped ≡ true → call_newest io ≡ none
unfolding call_newest
call_newest-stopped io e = rw e refl

abbrev run_over : Newest → Bool
run_over io =
    if io.flags.stopped
    then true
    else if io.flags.guarded
    then false
    else elim (newest io.bound io.holds) [ none ↦ true | some h ↦ false ]

abbrev hand_over : Newest → ℕ → Newest
hand_over io h = record io { bound = max io.bound (suc h); holds = update io.holds h true }

abbrev newest_first : IoContext Newest
newest_first = record {
  fresh = record {
    bound = 0;
    holds = λ k. false;
    flags = record { guarded = false; stopped = false };
  };
  make_work_guard = λ io. record io { flags = record io.flags { guarded = true } };
  reset = λ io. record io { flags = record io.flags { guarded = false } };
  post = hand_over;
  async_wait = λ io d h. hand_over io h;
  poll = call_newest;
  stop = λ io. record io { flags = record io.flags { stopped = true } };
  finished = run_over;
  held = λ io k. io.holds k;
  status = λ io. io.flags;
  held-fresh = λ k. refl;
  held-make_work_guard = λ io k. refl;
  held-reset = λ io k. refl;
  held-post = λ io h k. refl;
  held-async_wait = λ io d h k. refl;
  held-poll = call_newest-holds;
  held-stop = λ io k. refl;
  status-fresh = refl;
  status-make_work_guard = λ io. refl;
  status-reset = λ io. refl;
  status-post = λ io h. refl;
  status-async_wait = λ io d h. refl;
  status-poll = call_newest-flags;
  status-stop = λ io. refl;
  poll-stopped = call_newest-stopped;
  finished-stopped = λ io e. rw e refl;
  finished-guarded = λ io e. rw e refl;
}

-- A delay, a timer and a post, and one pool task that a worker has started.
abbrev three_handlers : AsioContext newest_first
three_handlers =
    (post newest_first
      (async_after newest_first (await_suspend newest_first (create newest_first 1) (delay 50)) 100
        (returned 42)).1
      (returned 7)).1

abbrev serving : AsioContext newest_first
serving = record three_handlers { io_futures = update three_handlers.io_futures 0 inside_run }

serving-Reach : Reach newest_first 1 serving
unfolding io_turn run_turn create await_suspend async_after post
serving-Reach =
    later
      (later (later (later start (delays 50 refl)) (waits 100 (returned 42) refl))
        (posts (returned 7) refl))
      (runs 0 serving (omega arith) refl)

abbrev after_call : Newest
after_call = record three_handlers.io_ctx { holds = update three_handlers.io_ctx.holds 2 false }

serving-poll : call_newest serving.io_ctx ≡ some (2, 0, after_call)
unfolding call_newest newest call_found create post async_after await_suspend ℕ_discrete
serving-poll = refl

-- The post was called and the destructor called.
abbrev called : AsioContext newest_first
called = record serving {
  io_ctx = after_call;
  promises = update serving.promises 2 (some (returned 7));
  io_futures = update serving.io_futures 0 inside_run;
}

called-turn : io_turn newest_first serving 0 ≡ some called
unfolding io_turn run_turn handle call_handler fulfil create await_suspend async_after post
    call_newest newest call_found ℕ_discrete
called-turn = refl

abbrev closing : AsioContext newest_first
closing = destroy newest_first called called.destructor

closing-Reach : Reach newest_first 1 closing
unfolding create await_suspend async_after post
closing-Reach = later (later serving-Reach (runs 0 called (omega arith) called-turn)) destroys

closing-called : is_called closing.destructor ≡ true
unfolding destroy create await_suspend async_after post
closing-called = refl

destroy-Ends_example :
    (b : AsioContext newest_first) × (two_turns newest_first 1 closing ≡ some b)
    × ((destroy_turns newest_first 2 b).destructor ≡ destroyed)
destroy-Ends_example = destroy-Ends newest_first closing closing-Reach closing-called

-- The task has returned and the destructor has ended.
abbrev left : AsioContext newest_first
left = record closing { io_futures = update closing.io_futures 0 run_returned }

left-turn : io_turn newest_first closing 0 ≡ some left
unfolding destroy io_turn run_turn create await_suspend async_after post call_newest ℕ_discrete
left-turn = refl

abbrev waited_for : AsioContext newest_first
waited_for = destroy newest_first left left.destructor

abbrev gone : AsioContext newest_first
gone = destroy newest_first waited_for waited_for.destructor

gone-Reach : Reach newest_first 1 gone
unfolding destroy create await_suspend async_after post
gone-Reach =
    later (later (later closing-Reach (runs 0 left (omega arith) left-turn)) destroys) destroys

gone-destroyed : gone.destructor ≡ destroyed
unfolding destroy is_ready create await_suspend async_after post ℕ_discrete
gone-destroyed = refl

gone-delay : get_elem? gone.handlers 0 ≡ some delayed
unfolding destroy is_ready create await_suspend async_after post ℕ_discrete
gone-delay = refl

-- The timer is dropped and the post has its value.
gone-promises :
    (gone.promises 1 ≡ some (threw broken_promise)) × (gone.promises 2 ≡ some (returned 7))
unfolding destroy is_ready drop_handler create await_suspend async_after post ℕ_discrete
gone-promises = (refl, refl)

destroy-filled_example :
    IsCalled newest_first gone 0 delayed ⊎ IsDropped newest_first gone 0 delayed
destroy-filled_example =
    destroy-filled newest_first gone 0 delayed gone-Reach gone-destroyed gone-delay

run-joined_example :
    (gone.destructor ≡ not_called → (i : ℕ) → is_ready (gone.io_futures i) ≡ false)
    × (gone.destructor ≡ destroyed → (i : ℕ) → i < 1 → is_ready (gone.io_futures i) ≡ true)
run-joined_example = run-joined newest_first gone gone-Reach

abbrev open_queue : TaskQueue ℕ
open_queue = record { tasks = 9 ∷ []; is_shutdown = false }

interrupted_run :
    submit_all
      ((takes ∷ []) ∷ (takes ∷ shuts ∷ []) ∷ [])
      (record { queue = open_queue; taken = [] })
      0
    ≡ (thrown, record { queue = record { tasks = []; is_shutdown = true }; taken = 9 ∷ 0 ∷ [] })
unfolding submit_all act try_pop pop_front push shutdown
interrupted_run = refl
