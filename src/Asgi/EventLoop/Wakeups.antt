-- ===== src/Asgi/EventLoop/Wakeups.antt =====
-- freastal/src/asgi.c, asgi_arm_wakeups() and the callbacks of libuv that call it.
use freastal.Prelude.{
  ℕ, ◌<◌, ◌≡◌, ◌↔◌, refl, Bool, true, false, List, [], ◌∷◌, ltb, ◌==◌, if_cases, if◌then◌else◌,
  arith,
}

-- asyncio's loop, of which a state tells how many callbacks are ready and how many are scheduled.
-- run_once is loop._run_once(), and drain is asgi_drain_ready() for a number of callbacks.
pub record Asyncio {ℓ} (A : Type ℓ) : Type ℓ where
  pub ready : A → ℕ
  pub scheduled : A → ℕ
  pub run_once : A → A
  pub drain : ℕ → A → A

-- The flags of the server, and whether libuv's handles are active.
pub record Wakeups : Type 0 where
  pub asgi_idle_active : Bool
  pub asgi_timer_active : Bool
  pub idle_handle : Bool
  pub timer_handle : Bool

unfoldable pub arm_idle : ℕ → Wakeups → Wakeups
arm_idle nready w =
    let has_ready = ltb 0 nready in
    if has_ready
    then (if w.asgi_idle_active
        then w
        else record w { asgi_idle_active = true; idle_handle = true })
    else if w.asgi_idle_active
    then record w { asgi_idle_active = false; idle_handle = false }
    else w

unfoldable pub arm_timer : ℕ → Wakeups → Wakeups
arm_timer nscheduled w =
    if nscheduled == 0
    then (if w.asgi_timer_active
        then record w { asgi_timer_active = false; timer_handle = false }
        else w)
    else record w { asgi_timer_active = true; timer_handle = true }

-- asgi_arm_wakeups_n()
unfoldable pub arm_wakeups_n : ℕ → ℕ → Wakeups → Wakeups
unfolding arm_idle arm_timer
arm_wakeups_n nready nscheduled w = arm_timer nscheduled (arm_idle nready w)

-- What happens on the loop: a callback of libuv, the poll's with whether its status is an error, or
-- the dispatch of a request that changes asyncio's state and leaves a task or finishes inline.
pub data Event {ℓ} (A : Type ℓ) : Type ℓ where
  timer_cb check_cb : Event A
  poll_cb : Bool → Event A
  suspended finished : (A → A) → Event A

module _ {ℓ} {A : Type ℓ} (aio : Asyncio A) where
  unfoldable pub arm_wakeups : A → Wakeups → A × Wakeups
  unfolding arm_wakeups_n
  arm_wakeups a w = (a, arm_wakeups_n (aio.ready a) (aio.scheduled a) w)

  -- libuv stops a timer without repeat before it calls back.
  unfoldable pub asgi_timer_cb : A → Wakeups → A × Wakeups
  unfolding arm_wakeups
  asgi_timer_cb a w =
      arm_wakeups (aio.run_once a) (record w { asgi_timer_active = false; timer_handle = false })

  unfoldable pub asgi_check_cb : Bool → A → Wakeups → A × Wakeups
  unfolding arm_wakeups
  asgi_check_cb poll_active a w =
      if ltb 0 (aio.ready a)
      then (if poll_active
          then arm_wakeups (aio.drain (aio.ready a) a) w
          else arm_wakeups (aio.run_once a) w)
      else arm_wakeups a w

  unfoldable pub asgi_poll_cb : Bool → A → Wakeups → A × Wakeups
  unfolding arm_wakeups
  asgi_poll_cb failed a w = if failed then (a, w) else arm_wakeups (aio.run_once a) w

  unfoldable pub loop_step : Bool → Event A → A × Wakeups → A × Wakeups
  loop_step poll_active timer_cb (a, w) = asgi_timer_cb a w
  loop_step poll_active check_cb (a, w) = asgi_check_cb poll_active a w
  loop_step poll_active (poll_cb failed) (a, w) = asgi_poll_cb failed a w
  loop_step poll_active (suspended app) (a, w) = arm_wakeups (app a) w
  loop_step poll_active (finished app) (a, w) = (app a, w)

  unfoldable pub loop_run : Bool → List (Event A) → A × Wakeups → A × Wakeups
  loop_run poll_active [] s = s
  loop_run poll_active (e ∷ es) s = loop_run poll_active es (loop_step poll_active e s)

-- The flags say what the handles do.
abbrev pub AreFlags : Wakeups → Type 0
AreFlags w = (w.asgi_idle_active ≡ w.idle_handle) × (w.asgi_timer_active ≡ w.timer_handle)

-- libuv is woken just if asyncio has work: at once for what is ready, by the timer for what is
-- scheduled.
abbrev pub IsArmed : ℕ → ℕ → Wakeups → Type 0
IsArmed ready scheduled w =
    ((w.idle_handle ≡ true) ↔ (0 < ready)) × ((w.timer_handle ≡ true) ↔ (0 < scheduled))

arm_idle-AreFlags :
    (n : ℕ) (w : Wakeups)
    → AreFlags w
    → AreFlags (arm_idle n w) × (((arm_idle n w).idle_handle ≡ true) ↔ (0 < n))
unfolding arm_idle
arm_idle-AreFlags n w h = ground arith

arm_timer-AreFlags :
    (m : ℕ) (w : Wakeups)
    → AreFlags w
    → AreFlags (arm_timer m w)
      × (((arm_timer m w).timer_handle ≡ true) ↔ (0 < m))
      × ((arm_timer m w).idle_handle ≡ w.idle_handle)
unfolding arm_timer
arm_timer-AreFlags m w h = ground arith

arm_wakeups_n-IsArmed :
    (n m : ℕ) (w : Wakeups)
    → AreFlags w
    → AreFlags (arm_wakeups_n n m w) × IsArmed n m (arm_wakeups_n n m w)
unfolding arm_wakeups_n
arm_wakeups_n-IsArmed n m w h =
    let (f, i) = arm_idle-AreFlags n w h in
    let (f', t, e) = arm_timer-AreFlags m (arm_idle n w) f in (f', (rw e i, t))

-- Every event but the end of a request that finished inline, and a poll that failed.
abbrev pub Arms {ℓ} : {A : Type ℓ} → Event A → Type 0
Arms timer_cb = Unit
Arms check_cb = Unit
Arms (poll_cb failed) = failed ≡ false
Arms (suspended app) = Unit
Arms (finished app) = true ≡ false

module _ {ℓ} {A : Type ℓ} (aio : Asyncio A) where
  abbrev pub IsReady : A × Wakeups → Type 0
  IsReady (a, w) = AreFlags w × IsArmed (aio.ready a) (aio.scheduled a) w

  arm_wakeups-IsReady : (a : A) (w : Wakeups) → AreFlags w → IsReady (arm_wakeups aio a w)
  unfolding arm_wakeups
  arm_wakeups-IsReady a w h = arm_wakeups_n-IsArmed (aio.ready a) (aio.scheduled a) w h

  check-IsReady :
      (poll_active : Bool) (a : A) (w : Wakeups)
      → AreFlags w
      → IsReady (asgi_check_cb aio poll_active a w)
  unfolding asgi_check_cb
  check-IsReady poll_active a w h =
      if_cases IsReady (ltb 0 (aio.ready a))
        (λ e.
          if_cases IsReady poll_active (λ p. arm_wakeups-IsReady (aio.drain (aio.ready a) a) w h)
            (λ p. arm_wakeups-IsReady (aio.run_once a) w h))
        λ e. arm_wakeups-IsReady a w h

  step-AreFlags :
      (p : Bool) (e : Event A) (s : A × Wakeups) → AreFlags s.1 → AreFlags (loop_step aio p e s).1
  unfolding loop_step asgi_timer_cb asgi_poll_cb
  step-AreFlags p timer_cb (a, w) h = (arm_wakeups-IsReady (aio.run_once a) _ (h.0, refl)).0
  step-AreFlags p check_cb (a, w) h = (check-IsReady p a w h).0
  step-AreFlags p (poll_cb true) (a, w) h = h
  step-AreFlags p (poll_cb false) (a, w) h = (arm_wakeups-IsReady (aio.run_once a) w h).0
  step-AreFlags p (suspended app) (a, w) h = (arm_wakeups-IsReady (app a) w h).0
  step-AreFlags p (finished app) (a, w) h = h

  step-IsReady :
      (p : Bool) (e : Event A) (s : A × Wakeups)
      → Arms e
      → AreFlags s.1
      → IsReady (loop_step aio p e s)
  unfolding loop_step asgi_timer_cb asgi_poll_cb
  step-IsReady p timer_cb (a, w) k h = arm_wakeups-IsReady (aio.run_once a) _ (h.0, refl)
  step-IsReady p check_cb (a, w) k h = check-IsReady p a w h
  step-IsReady p (poll_cb true) (a, w) k h = absurd (ground arith)
  step-IsReady p (poll_cb false) (a, w) k h = arm_wakeups-IsReady (aio.run_once a) w h
  step-IsReady p (suspended app) (a, w) k h = arm_wakeups-IsReady (app a) w h
  step-IsReady p (finished app) (a, w) k h = absurd (ground arith)

  run-AreFlags :
      (p : Bool) (es : List (Event A)) (s : A × Wakeups)
      → AreFlags s.1
      → AreFlags (loop_run aio p es s).1
  unfolding loop_run
  run-AreFlags p [] s h = h
  run-AreFlags p (e ∷ es) s h = run-AreFlags p es (loop_step aio p e s) (step-AreFlags p e s h)

-- The handles before anything has happened.
abbrev pub at_rest : Wakeups
at_rest = record {
  asgi_idle_active = false;
  asgi_timer_active = false;
  idle_handle = false;
  timer_handle = false;
}

-- After any sequence of callbacks and requests that ends with a callback of the timer, of the check
-- or of a poll that did not fail, or with a request that suspends, the idle handle of libuv is
-- active just if asyncio has a callback that is ready, and its timer just if asyncio has one that
-- is scheduled.
pub woken_for_work {ℓ} :
    {A : Type ℓ} (aio : Asyncio A) (poll_active : Bool) (a : A) (es : List (Event A)) (e : Event A)
    → Arms e
    → IsReady aio (loop_step aio poll_active e (loop_run aio poll_active es (a, at_rest)))
woken_for_work aio p a es e k =
    step-IsReady aio p e (loop_run aio p es (a, at_rest)) k
      (run-AreFlags aio p es (a, at_rest) (refl, refl))
