-- ===== src/Asgi/CoroStep.antt =====
-- freastal/src/asgi.c, asgi_coro_step_c(): one step of the application's coroutine, in a context.
use freastal.Prelude.{◌≡◌, refl, ap, ◌∙◌, ◌⊎◌, inl, inr, List, [], ◌∷◌}

-- PyIter_Send(): PYGEN_NEXT, PYGEN_RETURN or PYGEN_ERROR, with the object or the exception.
pub data Sent (O E : Type 0) : Type 0 where
  gen_next gen_return : O → Sent O E
  gen_error : E → Sent O E

-- What CPython does: T is the state of the thread, O its objects, E its exceptions. Entering a context
-- raises if it is entered already, leaving it if it is not the current one.
pub record Interpreter (T O E : Type 0) : Type 0 where
  pub context_enter : O → T → E ⊎ T
  pub context_exit : O → T → E ⊎ T
  pub iter_send : O → T → Sent O E × T
  pub type_error : E

-- The object that the call returns: one that the coroutine yielded, or ASGI_CORO_DONE.
pub data Step (O : Type 0) : Type 0 where
  yielded : O → Step O
  asgi_coro_done : Step O

module _ {T O E : Type 0} (py : Interpreter T O E) where
  -- What the coroutine gave, as the result of the call.
  abbrev pub step_of : Sent O E → E ⊎ Step O
  step_of (gen_next o) = inr (yielded o)
  step_of (gen_return o) = inr asgi_coro_done
  step_of (gen_error e) = inl e

  -- PyContext_Exit(), which takes the result with it when it fails.
  unfoldable pub exit_context : O → Sent O E × T → (E ⊎ Step O) × T
  exit_context ctx (r, t) = elim (py.context_exit ctx t) [
    | inl e ↦ (inl e, t)
    | inr t' ↦ (step_of r, t')
  ]

  unfoldable pub step_in_context : O → O → T → (E ⊎ Step O) × T
  unfolding exit_context
  step_in_context coro ctx t = elim (py.context_enter ctx t) [
    | inl e ↦ (inl e, t)
    | inr t' ↦ exit_context ctx (py.iter_send coro t')
  ]

  unfoldable pub asgi_coro_step : List O → T → (E ⊎ Step O) × T
  unfolding step_in_context
  asgi_coro_step (coro ∷ []) t = let (r, t') = py.iter_send coro t in (step_of r, t')
  asgi_coro_step (coro ∷ ctx ∷ []) t = step_in_context coro ctx t
  asgi_coro_step [] t = (inl py.type_error, t)
  asgi_coro_step (coro ∷ ctx ∷ o ∷ os) t = (inl py.type_error, t)

  -- Leaving a context that was entered brings back what was there before, and a step of a coroutine
  -- leaves the contexts of the thread as it found them.
  pub record IsBalanced : Type 0 where
    pub exit_enter :
        (ctx : O) (t t' : T) → py.context_enter ctx t ≡ inr t' → py.context_exit ctx t' ≡ inr t
    pub send : (coro : O) (t : T) → (py.iter_send coro t).1 ≡ t

  -- The result for each number of arguments: a context that cannot be entered is an exception, and the
  -- step is made in one that can.
  abbrev pub IsStep : List O → T → E ⊎ Step O → Type 0
  IsStep (coro ∷ []) t r = r ≡ step_of (py.iter_send coro t).0
  IsStep (coro ∷ ctx ∷ []) t r =
      ((e : E) × (py.context_enter ctx t ≡ inl e) × (r ≡ inl e))
      ⊎ ((t' : T) × (py.context_enter ctx t ≡ inr t') × (r ≡ step_of (py.iter_send coro t').0))
  IsStep [] t r = r ≡ inl py.type_error
  IsStep (coro ∷ ctx ∷ o ∷ os) t r = r ≡ inl py.type_error

  exited :
      (ctx : O) (t : T) (s : Sent O E × T)
      → py.context_exit ctx s.1 ≡ inr t
      → exit_context ctx s ≡ (step_of s.0, t)
  unfolding exit_context
  exited ctx t s q = rw (q, exit_context) refl

  entered :
      (coro ctx : O) (t : T) (x : E ⊎ T)
      → IsBalanced
      → py.context_enter ctx t ≡ x
      → IsStep (coro ∷ ctx ∷ []) t (step_in_context coro ctx t).0
        × ((step_in_context coro ctx t).1 ≡ t)
  unfolding step_in_context
  entered coro ctx t (inl e) b q = rw (q, step_in_context) (inl (e, refl, refl), refl)
  entered coro ctx t (inr t') b q =
      let back = ap (py.context_exit ctx) (b.send coro t') ∙ b.exit_enter ctx t t' q in
      rw (q, step_in_context, exited ctx t (py.iter_send coro t') back) (inr (t', refl, refl), refl)

  -- If leaving a context that was entered brings back what was there before, and a step of a coroutine
  -- leaves the contexts of the thread as it found them, asgi_coro_step() does so too, whatever
  -- comes of it; it returns what the coroutine yields, ASGI_CORO_DONE just if the coroutine returns, and
  -- raises what it raises; and it makes no step with a context that cannot be entered or with a
  -- wrong number of arguments.
  asgi_coro_step_lem :
      (args : List O) (t : T)
      → IsBalanced
      → IsStep args t (asgi_coro_step args t).0 × ((asgi_coro_step args t).1 ≡ t)
  unfolding asgi_coro_step
  asgi_coro_step_lem [] t b = (refl, refl)
  asgi_coro_step_lem (coro ∷ []) t b = (refl, b.send coro t)
  asgi_coro_step_lem (coro ∷ ctx ∷ []) t b = entered coro ctx t (py.context_enter ctx t) b refl
  asgi_coro_step_lem (coro ∷ ctx ∷ o ∷ os) t b = (refl, refl)
