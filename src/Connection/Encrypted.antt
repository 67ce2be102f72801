-- ===== src/Connection/Encrypted.antt =====
-- The encrypted side of a connection in freastal/src/server.c: the spill, giving up, deciding
-- whether to read, and tls_on_read_data(). A spill block is held exactly while bytes are in it.
use freastal.Prelude.{
  ℕ, zero, suc, ◌+◌, ◌-◌, Bool, true, false, not, ◌&&◌, ◌||◌, some, [], ◌∷◌, ◌++◌, Bytes, length,
  take, drop, ltb, leb, ◌==◌, if◌then◌else◌,
}
use freastal.Sizes.{read_buf_size, read_buf_alloc, tls_spill_size}
use freastal.Connection.State.{
  Client, read_len, client_compact, settle, uv_close, stop_reading, start_reading,
}
use freastal.Connection.Dispatch.{
  Env, HandshakeResult, finished, in_progress, broken, http_dispatch, closed,
}

module _ {S : Type 0} where
  -- The flag says whether malloc() has a block, should the connection hold none; the result is
  -- false for the return value -1.
  unfoldable pub tls_spill_stash : Bool → Client S → Bytes → Client S × Bool
  tls_spill_stash memory c src =
      if ltb tls_spill_size (length c.tls_spill + length src)
      then (c, false)
      else if length c.tls_spill == 0 && not memory
      then (c, false)
      else (record c { tls_spill = c.tls_spill ++ src }, true)

  -- The copy behind the two early returns: as much of the spill as read_buf has room for.
  abbrev pub refill : Client S → Client S
  refill c =
      let room = read_buf_size - read_len c in
      record c { read_buf = c.read_buf ++ take room c.tls_spill; tls_spill = drop room c.tls_spill }

  unfoldable pub tls_spill_drain : Client S → Client S
  unfolding client_compact
  tls_spill_drain c = if length c.tls_spill == 0 then c else refill (client_compact c)

  unfoldable pub tls_read_failed : Client S → Client S
  tls_read_failed c =
      if c.in_flight
      then stop_reading (record c { tls_broken = true; keep_alive = false })
      else uv_close (record c { tls_broken = true })

  -- The last part of tls_read_flow().
  unfoldable pub set_reading : Client S → Client S
  set_reading c =
      if ltb (read_len c) read_buf_size && length c.tls_spill == 0
      then start_reading c
      else stop_reading c

  unfoldable pub tls_read_flow : Client S → Client S
  unfolding set_reading settle
  tls_read_flow c =
      if c.closing
      then c
      else let c' = settle c in
        if leb read_buf_size (read_len c') && not c'.in_flight
        then uv_close (stop_reading c')
        else set_reading c'

-- What the loop over ptls_receive() leaves in `plain`.
pub record Sweep (S : Type 0) : Type 0 where
  pub ok : Bool
  pub produced : Bytes
  pub is_allocated : Bool
  pub session : S

module _ {S : Type 0} where
  -- What a sweep that ended well leaves: in read_buf, or moved there as far as it fits and the rest
  -- to the spill. False stands for the runtime check on `produced` and for a failed stash.
  unfoldable pub keep_plaintext : Bool → Client S → Sweep S → Client S × Bool
  unfolding tls_spill_stash
  keep_plaintext memory c w =
      let room = read_buf_size - read_len c in
      let got = record c { received = c.received ++ w.produced } in
      let filled = record got { read_buf = c.read_buf ++ take room w.produced } in
      let surplus = drop room w.produced in
      let (stashed, done) = tls_spill_stash memory filled surplus in
      if not w.is_allocated
      then (if ltb room (length w.produced)
          then (record got { lost = c.lost ++ w.produced }, false)
          else (record got { read_buf = c.read_buf ++ w.produced }, true))
      else if length surplus == 0
      then (filled, true)
      else if done
      then (stashed, true)
      else (record filled { lost = c.lost ++ surplus }, false)

-- tls_hs_send(): how many handshake writes are pending after it. What it cannot get memory for, or
-- uv_write() refuses, is dropped.
abbrev pub tls_hs_send : Bool → ℕ → ℕ
tls_hs_send has_output writes = if has_output then writes + 1 else writes

module _ {S : Type 0} (env : Env S) where
  open env use {handshake, receive}

  -- The loop of tls_on_read_data(), on fuel: every round but the last consumes input.
  unfoldable pub receive_all : ℕ → ℕ → Sweep S → Bytes → Sweep S
  receive_all zero capacity w input = w
  receive_all (suc fuel) capacity w [] = w
  receive_all (suc fuel) capacity w (b ∷ bs) =
      let r = receive w.session capacity w.produced (b ∷ bs) in
      let w' : Sweep S = record {
        ok = r.ok;
        produced = w.produced ++ r.plaintext;
        is_allocated = r.is_allocated;
        session = r.session;
      } in
      let rest = receive_all fuel capacity w' (drop r.inlen (b ∷ bs)) in
      if not r.ok || r.inlen == 0 then w' else rest

  abbrev pub sweep : Client S → S → Bytes → Sweep S
  sweep c s input =
      receive_all (length input) (read_buf_alloc - read_len c)
        (record { ok = true; produced = []; is_allocated = false; session = s }) input

  -- Dispatch what is in read_buf, unless a response is in flight, and decide about reading.
  unfoldable pub tls_proceed : Client S → Client S
  tls_proceed c =
      let (c', verdict) = http_dispatch env c in
      if c.in_flight then tls_read_flow c else elim verdict [ closed ↦ c' | _ ↦ tls_read_flow c' ]

  -- What tls_on_read_data() does with a sweep.
  unfoldable pub after_sweep : Bool → Client S → Sweep S → Client S
  after_sweep memory c w =
      let (c', kept) = keep_plaintext memory c w in
      if not w.ok
      then tls_read_failed c
      else if not kept
      then tls_read_failed c'
      else if length w.produced == 0
      then c'
      else tls_proceed c'

  -- The part behind the handshake.
  unfoldable pub tls_read_data : Bool → Client S → S → Bytes → Client S
  tls_read_data memory c s input =
      let c' = settle c in
      let w = sweep c' s input in after_sweep memory (record c' { tls = some w.session }) w

  -- What follows ptls_handshake() and tls_hs_send().
  unfoldable pub after_handshake : Bool → HandshakeResult → S → Bytes → Client S → Client S
  after_handshake memory finished s rest c =
      let c' = record c { tls_hs_done = true } in
      if length rest == 0 then c' else tls_read_data memory c' s rest
  after_handshake memory in_progress s rest c = c
  after_handshake memory broken s rest c = tls_read_failed c

  unfoldable pub tls_on_read_data : Bool → Client S → S → Bytes → Client S
  tls_on_read_data memory c s input =
      if c.tls_hs_done
      then tls_read_data memory c s input
      else let h = handshake s input in
        after_handshake memory h.result h.session (drop h.inlen input) (record c {
          tls = some h.session;
          handshake_writes = tls_hs_send h.has_output c.handshake_writes;
        })
