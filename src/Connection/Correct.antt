-- ===== src/Connection/Correct.antt =====
-- freastal/src/server.c: a connection in the states that the callbacks can reach.
use freastal.Prelude.{
  inl, inr, ℕ, zero, suc, drop, length-drop, ◌+◌, ◌≤◌, ◌<◌, ◌≡◌, refl, ◌⊎◌, ◌&&◌, ◌||◌,
  if◌then◌else◌, Bool, true, false, Option, [], ◌∷◌, ◌++◌, Bytes, length, arith,
}
use freastal.Sizes.{read_buf_size, tls_spill_size}
use freastal.Connection.State.{Client, read_len, client_buffered, consumed}
use freastal.Connection.Dispatch.{Env, broken}
use freastal.Connection.Encrypted.{
  tls_read_failed, after_handshake, tls_on_read_data, receive_all, Sweep,
}
use freastal.Connection.Callbacks.{on_tls_hs_write}
use freastal.Connection.Steps.{Reach}
use freastal.Connection.Outcome.{Parses}
use freastal.Connection.Bounds.{consumed-eq}
use freastal.Connection.Invariant.{IsReading}
use freastal.Connection.Gone.{State}
use freastal.Connection.Keeps.{Reach-State}
use freastal.Connection.Bounds.{Bounds}
use freastal.Connection.Stream.{spoken, rest}
use freastal.Connection.Order.{Reach-Stream}

-- What one round of the loop leaves.
abbrev next_sweep : {S : Type 0} → Env S → ℕ → Sweep S → Bytes → Sweep S
next_sweep env k w input =
    let r = env.receive w.session k w.produced input in
    record {
      ok = r.ok;
      produced = w.produced ++ r.plaintext;
      is_allocated = r.is_allocated;
      session = r.session;
    }

receive_all_agree :
    {S : Type 0} (env : Env S) (m n capacity : ℕ) (w : Sweep S) (input : Bytes)
    → length input ≤ m
    → length input ≤ n
    → receive_all env m capacity w input ≡ receive_all env n capacity w input
unfolding receive_all
receive_all_agree env zero zero k w [] h l = refl
receive_all_agree env zero (suc n) k w [] h l = refl
receive_all_agree env (suc m) zero k w [] h l = refl
receive_all_agree env (suc m) (suc n) k w [] h l = refl
receive_all_agree env zero n k w (b ∷ bs) h l = absurd (omega arith)
receive_all_agree env (suc m) zero k w (b ∷ bs) h l = absurd (omega arith)
receive_all_agree env (suc m) (suc n) k w (b ∷ bs) h l = ground (
  arith,
  length-drop (env.receive w.session k w.produced (b ∷ bs)).inlen (b ∷ bs),
  receive_all_agree env m n k (next_sweep env k w (b ∷ bs))
      (drop (env.receive w.session k w.produced (b ∷ bs)).inlen (b ∷ bs)),
)

bounded :
    {S : Type 0} {c : Client S}
    → State c
    → Bounds c × (0 < length c.tls_spill → read_len c ≡ read_buf_size)
bounded (inl v) = (v.core.bounds, v.core.spill_full)
bounded (inr g) = (g.bounds, g.spill_full)

module _ {S : Type 0} (env : Env S) (p : Parses env) where
  -- If phr_parse_request() returns a positive length within its input, then in every reachable
  -- state the plaintext that arrived is, in order: the requests handed to the application, what
  -- follows the request in flight in read_buf (all that is unread there, if none is in flight),
  -- the spill, and what was lost; and nothing was lost unless the connection was given up.
  pub requests_in_order :
      {tls : Option S} {c : Client S}
      → Reach env tls c
      → (c.received ≡ spoken c.served ++ (rest c ++ (c.tls_spill ++ c.lost)))
        × ((c.tls_broken ≡ true) ⊎ (c.lost ≡ []))
  requests_in_order r = let s = Reach-Stream env p r in (s.history, ground (arith, s.breaks.intact))

  -- If phr_parse_request() returns a positive length within its input, a reachable connection
  -- never stalls: if its handle is open, no request is in flight and no closing write is pending,
  -- then it reads, and no plaintext waits in the spill.
  pub no_stall :
      {tls : Option S} {c : Client S}
      → Reach env tls c
      → c.closing ≡ false
      → c.final_write ≡ false
      → c.in_flight ≡ false
      → (c.read_armed ≡ true) × (length c.tls_spill ≡ 0)
  no_stall {c = c} r o g f = elim (Reach-State env p r) [
    | inl v ↦ ground (arith, v.progress o g f, v.quiet)
    | inr w ↦ absurd (ground (arith, w.closing))
  ]

  -- If phr_parse_request() returns a positive length within its input, the application responds to a
  -- request once, and no handshake write has failed, uv_close() is called at most once on a reachable
  -- connection, it has been called just if the handle is closing, and neither a response nor a
  -- closing write is pending on a handle that is closing; the two are never pending together. And a
  -- connection of which a handshake write has failed is closing.
  pub closed_once :
      {tls : Option S} {c : Client S}
      → Reach env tls c
      → ((c.handshake_failed ≡ false)
          × (c.closes ≡ (if c.closing then 1 else 0))
          × (c.closing && (c.response_write || c.final_write) ≡ false)
          × (c.response_write && c.final_write ≡ false))
        ⊎ ((c.handshake_failed ≡ true) × (c.closing ≡ true))
  closed_once {c = c} r = elim (Reach-State env p r) [
    | inl v ↦ let k = v.core in inl (ground (arith, k.sound, k.once, k.response, k.final))
    | inr g ↦ inr (g.failed, g.closing)
  ]

  -- If phr_parse_request() returns a positive length within its input, the buffers of a reachable
  -- connection hold what they must: the offset is at most the length, the length at most
  -- READ_BUF_SIZE, the spill at most TLS_SPILL_SIZE, and the spill is in use only beside a full
  -- read_buf.
  pub buffers_bounded :
      {tls : Option S} {c : Client S}
      → Reach env tls c
      → (c.read_off ≤ read_len c)
        × (read_len c ≤ read_buf_size)
        × (length c.tls_spill ≤ tls_spill_size)
        × ((length c.tls_spill ≡ 0) ⊎ (read_len c ≡ read_buf_size))
  buffers_bounded r =
      let (b, full) = bounded (Reach-State env p r) in
      (b.off_le, b.len_le, b.spill_le, ground (arith, full))

  -- If phr_parse_request() returns a positive length within its input, a request in flight is
  -- whole in read_buf, and the `int` sum that client_reset() takes of its head and its body does
  -- not wrap.
  pub request_whole :
      {tls : Option S} {c : Client S}
      → Reach env tls c
      → c.in_flight ≡ true
      → (0 < c.headers_end)
        × (c.headers_end + c.content_length ≤ client_buffered c)
        × (consumed c ≡ c.headers_end + c.content_length)
  request_whole {tls} {c} r f =
      let (b, _) = bounded (Reach-State env p r) in
      let (q, w) = b.request f in (q, w, consumed-eq c b f)

module _ {S : Type 0} (env : Env S) where
  -- On a connection that is reading, with no request in flight and its handshake not done: if
  -- ptls_handshake() fails and leaves an alert to send, and the write of that alert fails too, then
  -- uv_close() is called twice on the handle, by tls_read_failed() and by on_tls_hs_write().
  pub failed_alert_closes_twice :
      (m : Bool) (c : Client S) (s : S) (input : Bytes)
      → IsReading c
      → c.in_flight ≡ false
      → c.tls_hs_done ≡ false
      → (env.handshake s input).result ≡ broken
      → (env.handshake s input).has_output ≡ true
      → (0 < (tls_on_read_data env m c s input).handshake_writes)
        × ((on_tls_hs_write (tls_on_read_data env m c s input) false).closes ≡ 2)
  unfolding tls_on_read_data after_handshake tls_read_failed on_tls_hs_write
  failed_alert_closes_twice m c s input r f d h o = ground (arith, r.core.once)

  -- The loop over ptls_receive() ends: any fuel of at least the length of the input gives what
  -- the fuel that tls_on_read_data() is modelled with gives, the length of the input itself.
  pub receive_all_enough :
      (fuel capacity : ℕ) (w : Sweep S) (input : Bytes)
      → length input ≤ fuel
      → receive_all env fuel capacity w input ≡ receive_all env (length input) capacity w input
  receive_all_enough fuel capacity w input l =
      receive_all_agree env fuel (length input) capacity w input l (omega arith)
