-- ===== src/Pools/Tests.antt =====
-- freastal/src/server.c and tls.c: the pools on small inputs.
use freastal.Prelude.{◌+◌, ◌≤◌, ◌≡◌, ◌≢◌, refl, ◌⊎◌, none, some, [], ◌∷◌, length, arith}
use freastal.Pools.{
  ClientPool, pool_init, client_alloc, tls_wbuf_pool_max, WbufPool, tls_wbuf_get, tls_wbuf_put,
  BigbufSlot,
}
use freastal.Pools.Clients.{count, started, accepted, client_slots}
use freastal.Pools.Release.{
  Memory, is_big, Holdings, claimed, tls_release_wbuf, tls_release_wbuf_lem,
}
use freastal.Pools.Blocks.{WbufReach, empty, taken, returned, blocks_accounted}

abbrev two_slots : ClientPool
two_slots = pool_init 2

client_slots_example :
    (count 0 (client_alloc none two_slots).0.free_list + count 0 (0 ∷ []) ≤ 1)
    × (((client_alloc none (client_alloc none two_slots).0).1 ≢ none) ⊎ (count 0 (0 ∷ []) ≡ 1))
unfolding client_alloc pool_init
client_slots_example =
    client_slots {n = 2} 0 (accepted none 0 started (λ b e. absurd (ground arith)) refl)
      (omega arith)

abbrev no_blocks : WbufPool
no_blocks = record {
  tls_wbuf_pool = [];
  tls_wbuf_pool_n = 0;
  tls_wbuf_live = 0;
  tls_wbuf_mallocs = 0;
  wbuf_freed = [];
}

abbrev one_back : WbufPool
one_back = tls_wbuf_put 7 (tls_wbuf_get (some 7) no_blocks).0

one_back-WbufReach : WbufReach one_back []
unfolding tls_wbuf_get
one_back-WbufReach = returned [] [] 7 (taken (some 7) 7 empty refl)

blocks_accounted_example :
    (one_back.tls_wbuf_pool_n ≡ length one_back.tls_wbuf_pool)
    × (one_back.tls_wbuf_pool_n ≤ tls_wbuf_pool_max)
    × (one_back.tls_wbuf_live ≡ 0)
    × (one_back.tls_wbuf_mallocs
        ≡ one_back.tls_wbuf_live + one_back.tls_wbuf_pool_n + length one_back.wbuf_freed)
blocks_accounted_example = blocks_accounted one_back-WbufReach

abbrev kept_one : BigbufSlot
kept_one = record {
  tls_bigbuf = some 3;
  tls_bigbuf_cap = 100;
  tls_bigbuf_live = 1;
  bigbuf_mallocs = 2;
  bigbuf_freed = [];
}

-- One block is out, in which picotls left the oversized buffer.
abbrev one_out : Memory
one_out = record {
  wbufs = (tls_wbuf_get (some 7) no_blocks).0;
  bigbufs = kept_one;
  spills = record { tls_spill_pool = []; tls_spill_pool_n = 0; spill_freed = [] };
  disposed = [];
}

abbrev one_segment : Holdings
one_segment = record {
  tls_wblock = record { block = 7; base = 9; capacity = 200 } ∷ [];
  tls_wbig = some 9;
  tls_spill = none;
  tls_spill_len = 0;
}

tls_release_wbuf_lem_example :
    WbufReach (tls_release_wbuf one_segment one_out).1.wbufs []
    × ((tls_release_wbuf one_segment one_out).1.bigbufs.tls_bigbuf_live + claimed (some 9) ≡ 1)
    × (tls_release_wbuf
          (tls_release_wbuf one_segment one_out).0
          (tls_release_wbuf one_segment one_out).1
        ≡ tls_release_wbuf one_segment one_out)
unfolding tls_wbuf_get is_big
tls_release_wbuf_lem_example =
    tls_release_wbuf_lem one_segment one_out [] (taken (some 7) 7 empty refl) (omega arith)
      (omega arith)
