-- ===== src/Pools/Blocks.antt =====
-- freastal/src/tls.c: the accounting of the encryption blocks, and the oversized buffer.
use freastal.Prelude.{
  ℕ, ◌+◌, ◌≤◌, ◌<◌, ◌≡◌, refl, ◌⊎◌, Option, none, some, List, [], ◌∷◌, ◌++◌, length, length-append,
  arith,
}
use freastal.Pools.{
  tls_wbuf_pool_max, WbufPool, tls_wbuf_get, tls_wbuf_put, BigbufSlot, tls_bigbuf_get,
  tls_bigbuf_put, tls_bigbuf_keep_max,
}

-- The states that responses lead the pool to, with the blocks they hold.
pub data WbufReach : WbufPool → List ℕ → Type 0 where
  empty :
      WbufReach
        (record {
          tls_wbuf_pool = [];
          tls_wbuf_pool_n = 0;
          tls_wbuf_live = 0;
          tls_wbuf_mallocs = 0;
          wbuf_freed = [];
        })
        []
  taken :
      {g : WbufPool} {held : List ℕ} (fresh : Option ℕ) (b : ℕ)
      → WbufReach g held
      → (tls_wbuf_get fresh g).1 ≡ some b
      → WbufReach (tls_wbuf_get fresh g).0 (b ∷ held)
  returned :
      {g : WbufPool} (before after : List ℕ) (b : ℕ)
      → WbufReach g (before ++ (b ∷ after))
      → WbufReach (tls_wbuf_put b g) (before ++ after)

record Accounted (g : WbufPool) (held : List ℕ) : Type 0 where
  count : g.tls_wbuf_pool_n ≡ length g.tls_wbuf_pool
  capped : g.tls_wbuf_pool_n ≤ tls_wbuf_pool_max
  live : g.tls_wbuf_live ≡ length held
  total : g.tls_wbuf_mallocs ≡ g.tls_wbuf_live + g.tls_wbuf_pool_n + length g.wbuf_freed

get-Accounted :
    (g : WbufPool) (held : List ℕ) (fresh : Option ℕ) (b : ℕ)
    → Accounted g held
    → (tls_wbuf_get fresh g).1 ≡ some b
    → Accounted (tls_wbuf_get fresh g).0 (b ∷ held)
unfolding tls_wbuf_get
get-Accounted g held fresh b a e = ground (arith, a.count, a.capped, a.live, a.total)

put-Accounted :
    (g : WbufPool) (before after : List ℕ) (b : ℕ)
    → Accounted g (before ++ (b ∷ after))
    → Accounted (tls_wbuf_put b g) (before ++ after)
unfolding tls_wbuf_put
put-Accounted g before after b a = ground (
  arith,
  a.count,
  a.capped,
  a.live,
  a.total,
  length-append before (b ∷ after),
  length-append before after,
)

-- However responses take and return encryption blocks, the length of the free list is what its
-- counter says and at most TLS_WBUF_POOL_MAX, the blocks held are as many as the counter of live
-- blocks says, and every block that was allocated is live, on the free list, or freed.
pub blocks_accounted :
    {g : WbufPool} {held : List ℕ}
    → WbufReach g held
    → (g.tls_wbuf_pool_n ≡ length g.tls_wbuf_pool)
      × (g.tls_wbuf_pool_n ≤ tls_wbuf_pool_max)
      × (g.tls_wbuf_live ≡ length held)
      × (g.tls_wbuf_mallocs ≡ g.tls_wbuf_live + g.tls_wbuf_pool_n + length g.wbuf_freed)
blocks_accounted r = let a = all r in (a.count, a.capped, a.live, a.total)
  where
    all : {g : WbufPool} {held : List ℕ} → WbufReach g held → Accounted g held
    all empty = record { count = refl; capped = omega arith; live = refl; total = refl }
    all (taken {g} {held} fresh b r e) = get-Accounted g held fresh b (all r) e
    all (returned {g} before after b r) = put-Accounted g before after b (all r)

-- A retained buffer is not larger than TLS_BIGBUF_KEEP_MAX, and an empty slot says 0.
pub record IsSlot (g : BigbufSlot) : Type 0 where
  pub kept : g.tls_bigbuf_cap ≤ tls_bigbuf_keep_max
  pub none_kept : g.tls_bigbuf ≡ none → g.tls_bigbuf_cap ≡ 0

-- From a slot that retains at most TLS_BIGBUF_KEEP_MAX, tls_bigbuf_get() reports a capacity of at
-- least what was needed and leaves such a slot, and so does tls_bigbuf_put(), which retains the
-- larger of the two buffers unless what it gets exceeds that maximum.
bigbuf_lem :
    (g : BigbufSlot) (fresh : Option ℕ) (need buf size : ℕ)
    → IsSlot g
    → (need ≤ (tls_bigbuf_get fresh need g).2)
      × IsSlot (tls_bigbuf_get fresh need g).0
      × IsSlot (tls_bigbuf_put buf size g)
      × ((tls_bigbuf_keep_max < size) ⊎ (size ≤ (tls_bigbuf_put buf size g).tls_bigbuf_cap))
      × (g.tls_bigbuf_cap ≤ (tls_bigbuf_put buf size g).tls_bigbuf_cap)
unfolding tls_bigbuf_get tls_bigbuf_put
bigbuf_lem g fresh need buf size i = ground (arith, i.kept, i.none_kept)
