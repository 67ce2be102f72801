-- ===== src/Pools/Clients.antt =====
-- freastal/src/server.c: who owns the slots of the client pool.
use freastal.Prelude.{
  ℕ, suc, ◌+◌, ◌≤◌, ◌<◌, ◌≡◌, ◌≢◌, refl, ◌∙◌, ◌⊎◌, inl, inr, if_cases, Option, none, some, List, [],
  ◌∷◌, ◌++◌, All, ltb, ◌==◌, if◌then◌else◌, arith,
}
use freastal.Pools.{ClientPool, pool_init, client_alloc, client_free}

abbrev pub count : ℕ → List ℕ → ℕ
count x [] = 0
count x (y ∷ ys) = if x == y then suc (count x ys) else count x ys

-- Each slot of the slab that was ever used is on the free list or held, once; the others are neither.
record Owned (g : ClientPool) (held : List ℕ) : Type 0 where
  pub used_le : g.pool_used ≤ g.pool_cap
  pub owner :
      (x : ℕ)
      → x < g.pool_cap
      → count x g.free_list + count x held ≡ (if ltb x g.pool_used then 1 else 0)
  pub slab : All (λ x. x < g.pool_cap) g.free_list

abbrev Allocates : ClientPool → List ℕ → Option ℕ → ℕ → Type 0
Allocates g held fresh c =
    Owned (client_alloc fresh g).0 (c ∷ held) × ((count c held ≡ 0) ⊎ (g.pool_cap ≤ c))

alloc_from :
    (n used : ℕ) (freed l held : List ℕ) (fresh : Option ℕ) (c : ℕ)
    → ((b : ℕ) → fresh ≡ some b → n ≤ b)
    → Owned (record { pool_cap = n; pool_used = used; free_list = l; freed = freed }) held
    → (client_alloc fresh
        (record { pool_cap = n; pool_used = used; free_list = l; freed = freed })).1
      ≡ some c
    → Allocates
        (record { pool_cap = n; pool_used = used; free_list = l; freed = freed })
        held
        fresh
        c
unfolding client_alloc
alloc_from n used freed (d ∷ ds) held fresh c m o a = (
  record { used_le = o.used_le; owner = λ x l. ground (arith, o.owner x l); slab = o.slab.1 },
  ground (arith, o.owner c, o.slab.0),
)
alloc_from n used freed [] held fresh c m o a =
    if_cases
      (λ (r : ClientPool × Option ℕ).
        r.1 ≡ some c → Owned r.0 (c ∷ held) × ((count c held ≡ 0) ⊎ (n ≤ c)))
      (ltb used n)
      (λ l e. (
        record { used_le = ground arith; owner = λ x h. ground (arith, o.owner x h); slab = tt },
        ground (arith, o.owner c),
      ))
      (λ l e. (
        record {
          used_le = o.used_le;
          owner = λ x h. ground (arith, o.owner x h, m c e);
          slab = tt;
        },
        inr (m c e),
      ))
      a

-- If the slots that clients hold and the free list account for the slab, and malloc() returns
-- nothing inside the slab, then a slot that client_alloc() returns is not held by another client,
-- and the slots still account for the slab with it.
client_alloc_lem :
    (g : ClientPool) (held : List ℕ) (fresh : Option ℕ) (c : ℕ)
    → ((b : ℕ) → fresh ≡ some b → g.pool_cap ≤ b)
    → Owned g held
    → (client_alloc fresh g).1 ≡ some c
    → Owned (client_alloc fresh g).0 (c ∷ held) × ((count c held ≡ 0) ⊎ (g.pool_cap ≤ c))
client_alloc_lem g held fresh c m o a =
    alloc_from g.pool_cap g.pool_used g.freed g.free_list held fresh c m o a

-- If the slots account for the slab, then they still do once client_free() has taken one back.
client_free_lem :
    (g : ClientPool) (held : List ℕ) (c : ℕ) → Owned g (c ∷ held) → Owned (client_free c g) held
unfolding client_free
client_free_lem g held c o = record {
  used_le = ground (arith, o.used_le);
  owner = λ x l. ground (arith, o.owner x);
  slab =
      if_cases (λ (h : ClientPool). All (λ x. x < h.pool_cap) h.free_list) (ltb c g.pool_cap)
        (λ l. (ground arith, o.slab)) (λ _. o.slab);
}

count-append : (x : ℕ) (l m : List ℕ) → count x (l ++ m) ≡ count x l + count x m
count-append x [] m = omega arith
count-append x (y ∷ l) m = ground (arith, count-append x l m)

-- Whose slot it is does not depend on the order of the clients.
Owned-front :
    (g : ClientPool) (before after : List ℕ) (c : ℕ)
    → Owned g (before ++ (c ∷ after))
    → Owned g (c ∷ (before ++ after))
Owned-front g before after c o = record {
  used_le = o.used_le;
  owner = λ x l.
      ground (arith, o.owner x l, count-append x before (c ∷ after), count-append x before after);
  slab = o.slab;
}

-- The states that accepts and closes lead a pool of n slots to, with the slots of the clients that
-- are open. malloc() returns nothing inside the slab.
pub data SlotReach (n : ℕ) : ClientPool → List ℕ → Type 0 where
  started : SlotReach n (pool_init n) []
  accepted :
      {g : ClientPool} {held : List ℕ} (fresh : Option ℕ) (c : ℕ)
      → SlotReach n g held
      → ((b : ℕ) → fresh ≡ some b → n ≤ b)
      → (client_alloc fresh g).1 ≡ some c
      → SlotReach n (client_alloc fresh g).0 (c ∷ held)
  closed :
      {g : ClientPool} (before after : List ℕ) (c : ℕ)
      → SlotReach n g (before ++ (c ∷ after))
      → SlotReach n (client_free c g) (before ++ after)

client_alloc-cap :
    (fresh : Option ℕ) (g : ClientPool) → (client_alloc fresh g).0.pool_cap ≡ g.pool_cap
unfolding client_alloc
client_alloc-cap fresh g = ground arith

client_free-cap : (c : ℕ) (g : ClientPool) → (client_free c g).pool_cap ≡ g.pool_cap
unfolding client_free
client_free-cap c g = ground arith

reach-Owned :
    {n : ℕ} {g : ClientPool} {held : List ℕ} → SlotReach n g held → (g.pool_cap ≡ n) × Owned g held
unfolding pool_init
reach-Owned started =
    (refl, record { used_le = omega arith; owner = λ x l. ground arith; slab = tt })
reach-Owned (accepted {g} {held} fresh c r m e) =
    let (cap, o) = reach-Owned r in
    (
      client_alloc-cap fresh g ∙ cap,
      (client_alloc_lem g held fresh c (λ b f. omega (arith, cap, m b f)) o e).0,
    )
reach-Owned (closed {g} before after c r) =
    let (cap, o) = reach-Owned r in
    (
      client_free-cap c g ∙ cap,
      client_free_lem g (before ++ after) c (Owned-front g before after c o),
    )

-- With no memory for a client outside the slab, a pool is refused only when all of it is held.
refused_from :
    (n used : ℕ) (freed l held : List ℕ) (x : ℕ)
    → Owned (record { pool_cap = n; pool_used = used; free_list = l; freed = freed }) held
    → x < n
    → ((client_alloc none
          (record { pool_cap = n; pool_used = used; free_list = l; freed = freed })).1
        ≢ none)
      ⊎ (count x held ≡ 1)
unfolding client_alloc
refused_from n used freed (d ∷ ds) held x o l = inl (λ e. ground arith)
refused_from n used freed [] held x o l =
    if_cases (λ (r : ClientPool × Option ℕ). (r.1 ≢ none) ⊎ (count x held ≡ 1)) (ltb used n)
      (λ _. inl (λ e. ground arith)) (λ full. inr (ground (arith, o.owner x l, o.used_le)))

refused-held :
    (g : ClientPool) (held : List ℕ) (x : ℕ)
    → Owned g held
    → x < g.pool_cap
    → ((client_alloc none g).1 ≢ none) ⊎ (count x held ≡ 1)
refused-held g held x o l = refused_from g.pool_cap g.pool_used g.freed g.free_list held x o l

-- However clients come and go, in whatever order, and as long as malloc() returns nothing inside the
-- slab, no slot of the slab is held by two clients, or held while it is on the free list; and
-- client_alloc() is refused for want of memory only if every slot of the slab is held.
pub client_slots :
    {n : ℕ} {g : ClientPool} {held : List ℕ} (x : ℕ)
    → SlotReach n g held
    → x < n
    → (count x g.free_list + count x held ≤ 1)
      × (((client_alloc none g).1 ≢ none) ⊎ (count x held ≡ 1))
client_slots {n} {g} {held} x r l =
    let (cap, o) = reach-Owned r in
    let inside : x < g.pool_cap = omega (arith, cap, l) in
    (ground (arith, o.owner x inside), refused-held g held x o inside)
