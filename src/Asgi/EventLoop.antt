-- ===== src/Asgi/EventLoop.antt =====
-- freastal/src/asgi.c, the driver of asyncio: asgi_drain_ready(), asgi_arm_wakeups() and the
-- callbacks of libuv. What asyncio's loop does is a parameter.
use freastal.Prelude.{
  ℕ, zero, suc, ◌+◌, ◌≡◌, ◌<◌, ◌↔◌, refl, sym, ap, ◌∙◌, ◌⊎◌, inl, inr, Bool, true, false, not,
  Option, none, some, List, [], ◌∷◌, ◌++◌, append_assoc, append-nil, length, ltb, leb, ◌==◌,
  if_cases, Bool-cases, if◌then◌else◌, arith,
}
pub mod Wakeups

-- What running a callback does: the callbacks that it appends to the queue, and whether
-- Handle._run() returns; and what _cancelled is read as, none if the attribute cannot be read.
pub record Callbacks {ℓ} (H : Type ℓ) : Type ℓ where
  pub cancelled : H → Option Bool
  pub appends : H → List H
  pub returns : H → Bool

module _ {ℓ} {H : Type ℓ} (k : Callbacks H) where
  -- asgi_drain_ready(): the callbacks that were run, in order, and what is left of _ready.
  unfoldable pub asgi_drain_ready : ℕ → List H → List H × List H
  asgi_drain_ready zero ready = ([], ready)
  asgi_drain_ready (suc ntodo) [] = ([], [])
  asgi_drain_ready (suc ntodo) (h ∷ ready) =
      let skipped = asgi_drain_ready ntodo ready in
      let next = asgi_drain_ready ntodo (ready ++ k.appends h) in
      elim (k.cancelled h) [
        | none ↦ ([], ready)
        | some true ↦ skipped
        | some false ↦ if k.returns h then (h ∷ next.0, next.1) else (h ∷ [], ready ++ k.appends h)
      ]

  -- The turn as it is meant: the callbacks that are not cancelled, and what they append.
  abbrev pub live : List H → List H
  live [] = []
  live (h ∷ hs) = elim (k.cancelled h) [
    | none ↦ live hs
    | some true ↦ live hs
    | some false ↦ h ∷ live hs
  ]

  abbrev pub appended : List H → List H
  appended [] = []
  appended (h ∷ hs) = k.appends h ++ appended hs

  -- The attribute of every callback can be read, and no callback lets an exception escape.
  abbrev pub Runs : List H → Type ℓ
  Runs [] = Unit
  Runs (h ∷ hs) =
      ((k.cancelled h ≡ some true) ⊎ ((k.cancelled h ≡ some false) × (k.returns h ≡ true)))
      × Runs hs

  drain_prefix :
      (hs more : List H)
      → Runs hs
      → asgi_drain_ready (length hs) (hs ++ more) ≡ (live hs, more ++ appended (live hs))
  unfolding asgi_drain_ready
  drain_prefix [] more r = ap (λ x. ([], x)) (sym (append-nil more))
  drain_prefix (h ∷ hs) more r = elim r.0 [
    | inl c ↦ rw (c, asgi_drain_ready, live) (drain_prefix hs more r.1)
    | inr (c, ret) ↦
        rw (c, ret, asgi_drain_ready, live)
          (let ih =
              ap (asgi_drain_ready (length hs)) (append_assoc hs more (k.appends h))
              ∙ drain_prefix hs (more ++ k.appends h) r.1
              ∙ ap (λ x. (live hs, x)) (append_assoc more (k.appends h) (appended (live hs))) in
            ap (λ (n : List H × List H). (h ∷ n.0, n.1)) ih)
  ]

  -- For a queue of which the attribute of every callback can be read and none lets an exception
  -- escape, asgi_drain_ready() with the length of the queue runs exactly the callbacks that were in it
  -- and are not cancelled, in their order, and leaves just what these appended, in its order.
  pub asgi_drain_ready_lem :
      (ready : List H)
      → Runs ready
      → asgi_drain_ready (length ready) ready ≡ (live ready, appended (live ready))
  asgi_drain_ready_lem ready r =
      ap (asgi_drain_ready (length ready)) (sym (append-nil ready)) ∙ drain_prefix ready [] r
