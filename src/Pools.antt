-- ===== src/Pools.antt =====
-- freastal/src/server.c and tls.c, the memory pools: client slots, encryption blocks, the oversized
-- buffer, and spill blocks. A block is a number; `fresh` is the block that malloc() would return,
-- none when it fails, and what free() gets is listed.
pub mod Blocks
pub mod Clients
pub mod Release
pub mod Tests
use freastal.Prelude.{
  ℕ, zero, suc, ◌+◌, ◌-◌, ◌*◌, Bool, true, false, not, ◌&&◌, Option, none, some, List, [], ◌∷◌,
  length, ltb, leb, ◌==◌, if◌then◌else◌,
}

abbrev pub tls_wbuf_pool_max : ℕ
tls_wbuf_pool_max = 256

abbrev pub tls_spill_pool_max : ℕ
tls_spill_pool_max = 64

-- The client pool of server_t: slot numbers below pool_cap are in the slab.
pub record ClientPool : Type 0 where
  pub pool_cap : ℕ
  pub pool_used : ℕ
  pub free_list : List ℕ
  pub freed : List ℕ

unfoldable pub pool_init : ℕ → ClientPool
pool_init n = record { pool_cap = n; pool_used = 0; free_list = []; freed = [] }

unfoldable pub client_alloc : Option ℕ → ClientPool → ClientPool × Option ℕ
client_alloc fresh g = elim g.free_list [
  | c ∷ cs ↦ (record g { free_list = cs }, some c)
  | [] ↦
      if ltb g.pool_used g.pool_cap
      then (record g { pool_used = g.pool_used + 1 }, some g.pool_used)
      else (g, fresh)
]

unfoldable pub client_free : ℕ → ClientPool → ClientPool
client_free c g =
    if ltb c g.pool_cap
    then record g { free_list = c ∷ g.free_list }
    else record g { freed = c ∷ g.freed }

-- The encryption blocks of server_t: the free list with its length, and the counters. tls_wbuf_mallocs
-- counts the calls for blocks only; those for oversized buffers, which the code adds to the same
-- counter, are beside that buffer.
pub record WbufPool : Type 0 where
  pub tls_wbuf_pool : List ℕ
  pub tls_wbuf_pool_n : ℕ
  pub tls_wbuf_live : ℕ
  pub tls_wbuf_mallocs : ℕ
  pub wbuf_freed : List ℕ

unfoldable pub tls_wbuf_get : Option ℕ → WbufPool → WbufPool × Option ℕ
tls_wbuf_get fresh g = elim g.tls_wbuf_pool [
  | b ∷ bs ↦ (
    record g {
      tls_wbuf_pool = bs;
      tls_wbuf_pool_n = g.tls_wbuf_pool_n - 1;
      tls_wbuf_live = g.tls_wbuf_live + 1;
    },
    some b,
  )
  | [] ↦ elim fresh [
    | none ↦ (g, none)
    | some b ↦ (
      record g { tls_wbuf_mallocs = g.tls_wbuf_mallocs + 1; tls_wbuf_live = g.tls_wbuf_live + 1 },
      some b,
    )
  ]
]

unfoldable pub tls_wbuf_put : ℕ → WbufPool → WbufPool
tls_wbuf_put block g =
    let g' = record g { tls_wbuf_live = g.tls_wbuf_live - 1 } in
    if leb tls_wbuf_pool_max g.tls_wbuf_pool_n
    then record g' { wbuf_freed = block ∷ g.wbuf_freed }
    else record g' {
      tls_wbuf_pool = block ∷ g.tls_wbuf_pool;
      tls_wbuf_pool_n = g.tls_wbuf_pool_n + 1;
    }

-- The spill blocks of server_t.
pub record SpillPool : Type 0 where
  pub tls_spill_pool : List ℕ
  pub tls_spill_pool_n : ℕ
  pub spill_freed : List ℕ

unfoldable pub tls_spill_get : Option ℕ → SpillPool → SpillPool × Option ℕ
tls_spill_get fresh g = elim g.tls_spill_pool [
  | b ∷ bs ↦ (record g { tls_spill_pool = bs; tls_spill_pool_n = g.tls_spill_pool_n - 1 }, some b)
  | [] ↦ (g, fresh)
]

unfoldable pub tls_spill_put : ℕ → SpillPool → SpillPool
tls_spill_put block g =
    if leb tls_spill_pool_max g.tls_spill_pool_n
    then record g { spill_freed = block ∷ g.spill_freed }
    else record g {
      tls_spill_pool = block ∷ g.tls_spill_pool;
      tls_spill_pool_n = g.tls_spill_pool_n + 1;
    }

-- The oversized buffer that is retained, with its capacity.
pub record BigbufSlot : Type 0 where
  pub tls_bigbuf : Option ℕ
  pub tls_bigbuf_cap : ℕ
  pub tls_bigbuf_live : ℕ
  pub bigbuf_mallocs : ℕ
  pub bigbuf_freed : List ℕ

-- The buffer, with what is stored in *cap_out.
unfoldable pub tls_bigbuf_get : Option ℕ → ℕ → BigbufSlot → BigbufSlot × Option ℕ × ℕ
tls_bigbuf_get fresh need g =
    let taken : BigbufSlot = record g {
      tls_bigbuf = none;
      tls_bigbuf_cap = 0;
      tls_bigbuf_live = g.tls_bigbuf_live + 1;
    } in
    let made : BigbufSlot = elim fresh [
      | none ↦ g
      | some b ↦ record g {
        bigbuf_mallocs = g.bigbuf_mallocs + 1;
        tls_bigbuf_live = g.tls_bigbuf_live + 1;
      }
    ] in
    elim g.tls_bigbuf [
      | none ↦ (made, fresh, need)
      | some b ↦
          if leb need g.tls_bigbuf_cap
          then (taken, some b, g.tls_bigbuf_cap)
          else (made, fresh, need)
    ]

abbrev pub tls_bigbuf_keep_max : ℕ
tls_bigbuf_keep_max = 2 * 1024 * 1024

unfoldable pub tls_bigbuf_put : ℕ → ℕ → BigbufSlot → BigbufSlot
tls_bigbuf_put buf size g =
    let g' : BigbufSlot = record g { tls_bigbuf_live = g.tls_bigbuf_live - 1 } in
    let kept : BigbufSlot = record g' { tls_bigbuf = some buf; tls_bigbuf_cap = size } in
    if ltb tls_bigbuf_keep_max size
    then record g' { bigbuf_freed = buf ∷ g.bigbuf_freed }
    else elim g.tls_bigbuf [
      | none ↦ kept
      | some old ↦
          if leb size g.tls_bigbuf_cap
          then record g' { bigbuf_freed = buf ∷ g.bigbuf_freed }
          else record kept { bigbuf_freed = old ∷ g.bigbuf_freed }
    ]
