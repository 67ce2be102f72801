-- ===== src/Pools/Release.antt =====
-- freastal/src/tls.c and server.c, the end of a response and of a connection: tls_release_wbuf(),
-- tls_release_spill(), tls_conn_init(), tls_conn_free() and on_close().
use freastal.Prelude.{
  ℕ, ◌+◌, ◌-◌, ◌≤◌, ◌≡◌, refl, Bool, true, false, not, ltb, ◌&&◌, ◌||◌, Option, none, some, List,
  [], ◌∷◌, ◌++◌, ◌==◌, if◌then◌else◌, arith,
}
use freastal.Pools.{
  ClientPool, client_free, WbufPool, tls_wbuf_put, SpillPool, tls_spill_put, BigbufSlot,
  tls_bigbuf_put,
}
use freastal.Pools.Blocks.{WbufReach, returned}

-- A segment of the chain: its block, and the buffer that picotls left in it.
pub record Seg : Type 0 where
  pub block : ℕ
  pub base : ℕ
  pub capacity : ℕ

-- The memory of the server, with the buffers of picotls that were disposed of.
pub record Memory : Type 0 where
  pub wbufs : WbufPool
  pub bigbufs : BigbufSlot
  pub spills : SpillPool
  pub disposed : List ℕ

-- What a connection holds: its chain, the oversized buffer, and the spill block with its length.
pub record Holdings : Type 0 where
  pub tls_wblock : List Seg
  pub tls_wbig : Option ℕ
  pub tls_spill : Option ℕ
  pub tls_spill_len : ℕ

unfoldable pub is_big : Option ℕ → ℕ → Bool
is_big none base = false
is_big (some big) base = base == big

-- The buffer of a segment, and whether the oversized one has been returned.
unfoldable pub release_base : Option ℕ → Seg → Bool × Memory → Bool × Memory
release_base big s (big_returned, g) =
    if s.base == s.block
    then (big_returned, g)
    else if is_big big s.base
    then (true, record g { bigbufs = tls_bigbuf_put s.base s.capacity g.bigbufs })
    else (big_returned, record g { disposed = s.base ∷ g.disposed })

unfoldable pub put_block : ℕ → Bool × Memory → Bool × Memory
put_block block (big_returned, g) = (big_returned, record g { wbufs = tls_wbuf_put block g.wbufs })

-- The walk over the chain.
unfoldable pub release_chain : Option ℕ → List Seg → Bool × Memory → Bool × Memory
release_chain big [] st = st
release_chain big (s ∷ ss) st = release_chain big ss (put_block s.block (release_base big s st))

-- The oversized buffer that no segment has any more.
unfoldable pub free_big : Option ℕ → Bool × Memory → Memory
free_big none (big_returned, g) = g
free_big (some big) (big_returned, g) = if big_returned then g else record g {
  bigbufs = record g.bigbufs {
    tls_bigbuf_live = g.bigbufs.tls_bigbuf_live - 1;
    bigbuf_freed = big ∷ g.bigbufs.bigbuf_freed;
  };
}

unfoldable pub tls_release_wbuf : Holdings → Memory → Holdings × Memory
tls_release_wbuf h g = (
  record h { tls_wblock = []; tls_wbig = none },
  free_big h.tls_wbig (release_chain h.tls_wbig h.tls_wblock (false, g)),
)

unfoldable pub tls_release_spill : Holdings → Memory → Holdings × Memory
tls_release_spill h g = (
  record h { tls_spill = none; tls_spill_len = 0 },
  elim h.tls_spill [ none ↦ g | some b ↦ record g { spills = tls_spill_put b g.spills } ],
)

-- What tls_conn_init() makes of these fields.
unfoldable pub tls_conn_init : Holdings
tls_conn_init = record { tls_wblock = []; tls_wbig = none; tls_spill = none; tls_spill_len = 0 }

unfoldable pub tls_conn_free : Holdings → Memory → Holdings × Memory
tls_conn_free h g = let (h', g') = tls_release_spill h g in tls_release_wbuf h' g'

-- on_close() of the client in a slot; the cached Python objects are left out.
unfoldable pub on_close : ℕ → Holdings → Memory → ClientPool → Holdings × Memory × ClientPool
on_close slot h g pool = let (h', g') = tls_conn_free h g in (h', g', client_free slot pool)

-- How many segments still have the oversized buffer.
abbrev pub hits : Option ℕ → List Seg → ℕ
hits big [] = 0
hits big (s ∷ ss) =
    if not (s.base == s.block) && is_big big s.base then 1 + hits big ss else hits big ss

abbrev pub blocks : List Seg → List ℕ
blocks [] = []
blocks (s ∷ ss) = s.block ∷ blocks ss

base-wbufs :
    (big : Option ℕ) (s : Seg) (st : Bool × Memory) → (release_base big s st).1.wbufs ≡ st.1.wbufs
unfolding release_base
base-wbufs big s (r, g) = ground arith

chain-WbufReach :
    (big : Option ℕ) (chain : List Seg) (held : List ℕ) (st : Bool × Memory)
    → WbufReach st.1.wbufs (blocks chain ++ held)
    → WbufReach (release_chain big chain st).1.wbufs held
unfolding release_chain put_block
chain-WbufReach big [] held st r = r
chain-WbufReach big (s ∷ ss) held st r =
    chain-WbufReach big ss held (put_block s.block (release_base big s st))
      (rw (base-wbufs big s st) (returned [] (blocks ss ++ held) s.block r))

put-live :
    (buf size : ℕ) (g : BigbufSlot)
    → (tls_bigbuf_put buf size g).tls_bigbuf_live ≡ g.tls_bigbuf_live - 1
unfolding tls_bigbuf_put
put-live buf size g = ground arith

base-live :
    (big : Option ℕ) (s : Seg) (st : Bool × Memory)
    → (release_base big s st).1.bigbufs.tls_bigbuf_live ≡ (
        if not (s.base == s.block) && is_big big s.base
        then st.1.bigbufs.tls_bigbuf_live - 1
        else st.1.bigbufs.tls_bigbuf_live)
unfolding release_base
base-live big s (r, g) = ground (arith, put-live s.base s.capacity g.bigbufs)

base-returned :
    (big : Option ℕ) (s : Seg) (st : Bool × Memory)
    → (release_base big s st).0 ≡ (st.0 || (not (s.base == s.block) && is_big big s.base))
unfolding release_base
base-returned big s (r, g) = ground arith

-- The oversized buffer is given back as often as a segment has it.
chain-live :
    (big : Option ℕ) (chain : List Seg) (st : Bool × Memory)
    → hits big chain ≤ st.1.bigbufs.tls_bigbuf_live
    → ((release_chain big chain st).1.bigbufs.tls_bigbuf_live + hits big chain
        ≡ st.1.bigbufs.tls_bigbuf_live)
      × ((release_chain big chain st).0 ≡ (st.0 || ltb 0 (hits big chain)))
unfolding release_chain put_block
chain-live big [] st h = ground arith
chain-live big (s ∷ ss) st h = ground (
  arith,
  chain-live big ss (put_block s.block (release_base big s st)),
  base-live big s st,
  base-returned big s st,
)

no_hits : (chain : List Seg) → hits none chain ≡ 0
unfolding is_big
no_hits [] = refl
no_hits (s ∷ ss) = ground (arith, no_hits ss)

abbrev pub claimed : Option ℕ → ℕ
claimed none = 0
claimed (some b) = 1

free-wbufs : (o : Option ℕ) (x : Bool × Memory) → (free_big o x).wbufs ≡ x.1.wbufs
unfolding free_big
free-wbufs none x = refl
free-wbufs (some b) (true, g) = refl
free-wbufs (some b) (false, g) = refl

free-live :
    (o : Option ℕ) (chain : List Seg) (x : Bool × Memory) (live : ℕ)
    → claimed o ≤ live
    → hits o chain ≤ 1
    → x.1.bigbufs.tls_bigbuf_live + hits o chain ≡ live
    → x.0 ≡ ltb 0 (hits o chain)
    → (free_big o x).bigbufs.tls_bigbuf_live + claimed o ≡ live
unfolding free_big
free-live none chain x live c h e f = omega (arith, e, no_hits chain)
free-live (some b) chain (true, g) live c h e f = ground (arith, e, f)
free-live (some b) chain (false, g) live c h e f = ground (arith, e, f)

claimed-hits :
    (o : Option ℕ) (chain : List Seg) (live : ℕ)
    → claimed o ≤ live
    → hits o chain ≤ 1
    → hits o chain ≤ live
claimed-hits none chain live c h = omega (arith, no_hits chain)
claimed-hits (some b) chain live c h = omega arith

-- If the blocks of a chain are among those that the pool has given out, tls_release_wbuf() leaves a
-- state of the pool in which just the others are out; if the connection's oversized buffer is
-- counted as live and at most one segment still has it, it is counted no more afterwards, wherever it
-- went; and to release a second time changes nothing.
pub tls_release_wbuf_lem :
    (h : Holdings) (g : Memory) (held : List ℕ)
    → WbufReach g.wbufs (blocks h.tls_wblock ++ held)
    → claimed h.tls_wbig ≤ g.bigbufs.tls_bigbuf_live
    → hits h.tls_wbig h.tls_wblock ≤ 1
    → WbufReach (tls_release_wbuf h g).1.wbufs held
      × ((tls_release_wbuf h g).1.bigbufs.tls_bigbuf_live + claimed h.tls_wbig
          ≡ g.bigbufs.tls_bigbuf_live)
      × (tls_release_wbuf (tls_release_wbuf h g).0 (tls_release_wbuf h g).1 ≡ tls_release_wbuf h g)
unfolding tls_release_wbuf free_big release_chain
tls_release_wbuf_lem h g held r l k =
    let start : Bool × Memory = (false, g) in
    let done = release_chain h.tls_wbig h.tls_wblock start in
    let (e, f) =
      chain-live h.tls_wbig h.tls_wblock start
        (claimed-hits h.tls_wbig h.tls_wblock g.bigbufs.tls_bigbuf_live l k) in
    (
      rw (free-wbufs h.tls_wbig done) (chain-WbufReach h.tls_wbig h.tls_wblock held start r),
      free-live h.tls_wbig h.tls_wblock done g.bigbufs.tls_bigbuf_live l k e f,
      refl,
    )
