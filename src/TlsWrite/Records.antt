-- ===== src/TlsWrite/Records.antt =====
-- freastal/src/server.c: the records and blocks that an encrypted response takes.
use freastal.Prelude.{
  ℕ, zero, suc, ◌+◌, ◌-◌, ◌*◌, ◌/◌, ◌≤◌, ◌<◌, ◌≡◌, refl, ◌⊎◌, inl, inr, true, false, some, List, [],
  ◌∷◌, Bytes, length, All, ltb, ◌==◌, Bool-cases, arith,
}
use freastal.Sizes.{tls_max_record_plaintext, tls_wbuf_size, tls_wseg_max}
use freastal.TlsWrite.{
  tls_encrypted_size, tls_record_count, Progress, tls_wseg_open, nseg, Env, make_room, send_chunk,
  after_chunk, next_chunk, send_records, vectors, tls_write_response_impl,
}

times_le : (a b o : ℕ) → a ≤ b → a * o ≤ b * o
times_le zero b o h = omega arith
times_le (suc a) zero o h = absurd (omega arith)
times_le (suc a) (suc b) o h = omega (arith, times_le a b o (omega arith))

-- tls_record_count() is the least number of records of TLS_MAX_RECORD_PLAINTEXT bytes that hold a
-- plaintext of this length, and tls_encrypted_size() is enough for all of them with their overhead.
record_count_lem :
    (len rec_overhead : ℕ)
    → (len ≤ tls_record_count len * tls_max_record_plaintext)
      × (tls_record_count len * tls_max_record_plaintext < len + tls_max_record_plaintext)
      × (len + tls_record_count len * rec_overhead ≤ tls_encrypted_size len rec_overhead)
unfolding tls_record_count tls_encrypted_size
record_count_lem len o = (
  omega arith,
  omega arith,
  omega (arith, times_le ((len + 16384 - 1) / 16384) (len / 16384 + 1) o (omega arith)),
)

within : (n : ℕ) → n ≤ tls_wseg_max → ltb tls_wseg_max n ≡ false
within n h = ground arith

-- One record less is left after a chunk.
fewer :
    (left : ℕ)
    → 0 < left
    → tls_record_count (left - next_chunk false left) + 1 ≡ tls_record_count left
unfolding tls_record_count
fewer left h = ground arith

one_record : (chunk o : ℕ) → 0 < chunk → chunk ≤ 16384 → tls_record_count chunk * o ≡ o
unfolding tls_record_count
one_record chunk o h l = rw (count chunk h l) (omega arith)
  where
    count : (chunk : ℕ) → 0 < chunk → chunk ≤ 16384 → (chunk + 16384 - 1) / 16384 ≡ 1
    count chunk h l = omega arith

-- No more blocks than records so far, each with at most so many bytes past its size, and records left for the rest.
record Fits (spare left : ℕ) (p : Progress) : Type 0 where
  blocks : (nseg p ≤ length p.sent) ⊎ ((length p.sent ≡ 0) × (nseg p ≡ 1) × (p.seg.off ≡ 0))
  room : length p.sent + tls_record_count left ≤ tls_wseg_max
  filled : All (λ s. s.off ≤ tls_wbuf_size + spare) p.filled
  current : p.seg.off ≤ tls_wbuf_size + spare

module _ (env : Env) (small : env.rec_overhead ≤ 512) (blocks : (n : ℕ) → env.wbuf_get n ≡ true)
    (sends : (n : ℕ) → env.send n ≡ true) (spare : ℕ)
    (most : (n : ℕ) → env.unpredicted n ≤ spare) where
  make_room-Fits :
      (left : ℕ) (p : Progress)
      → 0 < left
      → Fits spare left p
      → (q : Progress) × (make_room env false (next_chunk false left) p ≡ some q)
        × (nseg q ≤ length q.sent + 1)
        × (q.sent ≡ p.sent)
        × All (λ s. s.off ≤ tls_wbuf_size + spare) q.filled
        × (q.seg.off + next_chunk false left + env.rec_overhead ≤ tls_wbuf_size)
  unfolding make_room tls_wseg_open tls_record_count
  make_room-Fits left p h f =
      elim (Bool-cases (ltb tls_wbuf_size (p.seg.off + next_chunk false left + env.rec_overhead))) [
        | inl full ↦ (
          record p { filled = p.seg ∷ p.filled; seg = tls_wseg_open },
          ground (arith, blocks (nseg p), f.blocks, f.room),
          ground (arith, f.blocks),
          refl,
          (f.current, f.filled),
          ground arith,
        )
        | inr fits ↦ (p, ground arith, ground (arith, f.blocks), refl, f.filled, ground arith)
      ]

  -- The counts of one more record.
  send_chunk-Fits :
      (vec : List Bytes) (left : ℕ) (p q : Progress)
      → 0 < left
      → Fits spare left p
      → nseg q ≤ length q.sent + 1
      → q.sent ≡ p.sent
      → All (λ s. s.off ≤ tls_wbuf_size + spare) q.filled
      → q.seg.off + next_chunk false left + env.rec_overhead ≤ tls_wbuf_size
      → Fits spare (left - next_chunk false left) (after_chunk env vec (next_chunk false left) q)
  send_chunk-Fits vec left p q h f n e a room = record {
    blocks = inl (omega (arith, n));
    room = ground (arith, f.room, e, fewer left h);
    filled = a;
    current = omega (
      arith,
      room,
      one_record (next_chunk false left) env.rec_overhead (ground arith) (ground arith),
      most (length q.sent),
    );
  }

  send_records-Fits :
      (fuel : ℕ) (vec : List Bytes) (left : ℕ) (p : Progress)
      → tls_record_count left < fuel
      → Fits spare left p
      → (r : Progress) × (send_records env fuel vec false left p ≡ some r) × Fits spare 0 r
  unfolding send_records send_chunk
  send_records-Fits zero vec left p h f = absurd (omega arith)
  send_records-Fits (suc fuel) vec zero p h f = (p, refl, f)
  send_records-Fits (suc fuel) vec (suc l) p h f =
      let (q, e, n, s, a, room) = make_room-Fits (suc l) p (omega arith) f in
      let (r, t, g) =
        send_records-Fits fuel vec (suc l - next_chunk false (suc l))
          (after_chunk env vec (next_chunk false (suc l)) q)
          (omega (arith, fewer (suc l) (omega arith)))
          (send_chunk-Fits vec (suc l) p q (omega arith) f n s a room) in
      let z : (suc l == 0) ≡ false = ground arith in (r, rw (e, sends (length q.sent), z) t, g)

  -- If every block and every record can be had, and a record costs at most 512 bytes beside its
  -- plaintext and at most `spare` more that the overhead does not predict, then a response of at most
  -- TLS_WSEG_MAX records is sent: the jump to abandon is not taken, it takes at most TLS_WSEG_MAX
  -- blocks and as many records, and no block has more than TLS_WBUF_SIZE and `spare` bytes.
  pub response_fits :
      (hdr body : Bytes)
      → tls_record_count (length hdr + length body) ≤ tls_wseg_max
      → (p : Progress) × (tls_write_response_impl env hdr body ≡ some p)
        × (nseg p ≤ tls_wseg_max)
        × (length p.sent ≤ tls_wseg_max)
        × All (λ s. s.off ≤ tls_wbuf_size + spare) p.filled
        × (p.seg.off ≤ tls_wbuf_size + spare)
  unfolding tls_write_response_impl tls_wseg_open
  response_fits hdr body h =
      let total : ℕ = length hdr + length body in
      let first : Progress = record {
        filled = [];
        seg = record { off = 0; capacity = tls_wbuf_size };
        veci = 0;
        vecoff = 0;
        sent = [];
      } in
      let (p, e, f) =
        send_records-Fits (tls_record_count total + 1) (vectors hdr body) total first (omega arith)
          (record {
            blocks = ground arith;
            room = omega arith;
            filled = tt;
            current = omega arith;
          }) in
      (
        p,
        rw (blocks 0, within (tls_record_count total) h) e,
        ground (arith, f.blocks, f.room),
        omega (arith, f.room),
        f.filled,
        f.current,
      )
