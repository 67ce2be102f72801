-- ===== src/TlsWrite.antt =====
-- freastal/src/server.c, the encrypted response: how many records and blocks it takes, and how the
-- header and the body are cut into records. A block is the list of the records in it, each by its
-- plaintext; what picotls makes of a record is a parameter, its overhead a number.
pub mod Records
pub mod Slices
pub mod Whole
pub mod Tests
use freastal.Prelude.{
  ℕ, zero, suc, ◌+◌, ◌-◌, ◌*◌, ◌/◌, Bool, true, false, not, ◌&&◌, Option, none, some, List, [], ◌∷◌,
  ◌++◌, Bytes, length, take, drop, get_or, min, ltb, leb, ◌==◌, if◌then◌else◌,
}
use freastal.Sizes.{tls_max_record_plaintext, tls_wbuf_size, tls_wseg_max}

unfoldable pub tls_encrypted_size : ℕ → ℕ → ℕ
tls_encrypted_size len rec_overhead = len + (len / tls_max_record_plaintext + 1) * rec_overhead

unfoldable pub tls_record_count : ℕ → ℕ
tls_record_count len = (len + tls_max_record_plaintext - 1) / tls_max_record_plaintext

-- What a call of tls_slice() leaves: the vectors it wrote, and the cursor.
pub record Slice : Type 0 where
  pub out : List Bytes
  pub veci : ℕ
  pub vecoff : ℕ

-- The loop of tls_slice(), on fuel: every round ends or goes on to the next vector.
unfoldable pub tls_slice : ℕ → List Bytes → ℕ → ℕ → ℕ → Slice
tls_slice zero vec veci vecoff want = record { out = []; veci = veci; vecoff = vecoff }
tls_slice (suc fuel) vec veci vecoff want =
    let v = get_or vec veci [] in
    let taken = min (length v - vecoff) want in
    let last = vecoff + taken == length v in
    let rest =
      tls_slice fuel vec (if last then veci + 1 else veci) (if last then 0 else vecoff + taken)
        (want - taken) in
    if want == 0 then record { out = []; veci = veci; vecoff = vecoff } else record {
      out = take taken (drop vecoff v) ∷ rest.out;
      veci = rest.veci;
      vecoff = rest.vecoff;
    }

-- tls_wseg_t: what has been written to the block's buffer, and its capacity.
pub record Segment : Type 0 where
  pub off : ℕ
  pub capacity : ℕ

-- Where tls_write_response_impl() stands in its loop: the blocks filled before the current one,
-- newest first, the current one, the cursor, and the records sent, each by its vectors, newest first.
pub record Progress : Type 0 where
  pub filled : List Segment
  pub seg : Segment
  pub veci : ℕ
  pub vecoff : ℕ
  pub sent : List (List Bytes)

unfoldable pub tls_wseg_open : Segment
tls_wseg_open = record { off = 0; capacity = tls_wbuf_size }

abbrev pub nseg : Progress → ℕ
nseg p = length p.filled + 1

-- picotls and the pool: tls_wbuf_get() has a block for the n-th request of it, tls_bigbuf_get() has a
-- buffer of this capacity for a need, ptls_send_v() encrypts the n-th record, and writes so many bytes
-- more than the overhead predicts, as for a KeyUpdate. If these go past the block, the bytes are in an
-- allocation of picotls.
pub record Env : Type 0 where
  pub rec_overhead : ℕ
  pub wbuf_get : ℕ → Bool
  pub bigbuf_get : ℕ → Option ℕ
  pub send : ℕ → Bool
  pub unpredicted : ℕ → ℕ

-- The plaintext of the next record, of what is left.
abbrev pub next_chunk : Bool → ℕ → ℕ
next_chunk oversized left =
    if not oversized && ltb tls_max_record_plaintext left then tls_max_record_plaintext else left

-- The vectors that are not empty.
abbrev pub vectors : Bytes → Bytes → List Bytes
vectors hdr body =
    (if length hdr == 0 then [] else hdr ∷ []) ++ (if length body == 0 then [] else body ∷ [])

module _ (env : Env) where
  open env use {rec_overhead, wbuf_get, bigbuf_get, send, unpredicted}

  -- A block for the next record, if the current one has no room for it; none is the jump to abandon.
  unfoldable pub make_room : Bool → ℕ → Progress → Option Progress
  unfolding tls_wseg_open
  make_room oversized chunk p =
      if not oversized && ltb tls_wbuf_size (p.seg.off + chunk + rec_overhead)
      then (if nseg p == tls_wseg_max
          then none
          else if wbuf_get (nseg p)
          then some (record p { filled = p.seg ∷ p.filled; seg = tls_wseg_open })
          else none)
      else some p

  -- Where the loop stands once the record is encrypted into the current block. ptls_send_v() splits
  -- an oversized run into records by itself.
  abbrev pub after_chunk : List Bytes → ℕ → Progress → Progress
  after_chunk vec chunk p =
      let s = tls_slice (length vec + 1) vec p.veci p.vecoff chunk in
      record p {
        seg = record {
          off =
              p.seg.off
              + chunk
              + tls_record_count chunk * rec_overhead
              + unpredicted (length p.sent);
          capacity = p.seg.capacity;
        };
        veci = s.veci;
        vecoff = s.vecoff;
        sent = s.out ∷ p.sent;
      }

  unfoldable pub send_chunk : List Bytes → ℕ → Progress → Option Progress
  send_chunk vec chunk p = if send (length p.sent) then some (after_chunk vec chunk p) else none

  -- The loop over the records, on fuel, with what is left to send.
  unfoldable pub send_records : ℕ → List Bytes → Bool → ℕ → Progress → Option Progress
  send_records zero vec oversized left p = none
  send_records (suc fuel) vec oversized left p =
      let chunk = next_chunk oversized left in
      if left == 0 then some p else elim (make_room oversized chunk p) [
        | none ↦ none
        | some q ↦ elim (send_chunk vec chunk q) [
          | none ↦ none
          | some r ↦ send_records fuel vec oversized (left - chunk) r
        ]
      ]

  -- tls_write_response_impl(): none when it gives up and closes.
  unfoldable pub tls_write_response_impl : Bytes → Bytes → Option Progress
  tls_write_response_impl hdr body =
      let vec = vectors hdr body in
      let total = length hdr + length body in
      let oversized = ltb tls_wseg_max (tls_record_count total) in
      let first : Progress = record {
        filled = [];
        seg = tls_wseg_open;
        veci = 0;
        vecoff = 0;
        sent = [];
      } in
      if not (wbuf_get 0)
      then none
      else if oversized
      then elim (bigbuf_get (tls_encrypted_size total rec_overhead)) [
        | none ↦ none
        | some room ↦
            send_records 2 vec true total
              (record first { seg = record { off = 0; capacity = room } })
      ]
      else send_records (tls_record_count total + 1) vec false total first
