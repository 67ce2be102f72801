-- ===== src/Connection/Parts.antt =====
-- The invariant of a connection through the parts of its callbacks that do not depend on what the
-- parser, picotls and the application return.
use freastal.Prelude.{
  ℕ, ◌+◌, ◌-◌, ◌≤◌, ◌<◌, ◌≡◌, inl, inr, Bool, true, false, none, some, Bytes, length, take, drop,
  length-append, length-take, length-drop, Option-cases, ◌==◌, not, arith,
}
use freastal.Sizes.{read_buf_size}
use freastal.Connection.State.{Client, read_len, client_compact, settle, alloc_cb}
use freastal.Connection.Dispatch.{Verdict, dispatched, more, closed}
use freastal.Connection.Encrypted.{Sweep, keep_plaintext}
use freastal.Connection.Callbacks.{
  on_read_error, on_tls_hs_write, on_tls_final_write, deliver, resume, take_back,
}
use freastal.Connection.Outcome.{Frame, IsIdle, Refused, Ends}
use freastal.Connection.Bounds.{Bounds}
use freastal.Connection.Invariant.{Core, Inv, IsReading, tls_read_flow-Inv}

module _ {S : Type 0} (c d : Client S) where
  -- After a dispatch the buffers are as before, and the flags say how it ended.
  pub Ends-Core : (v : Verdict) → Core c → IsIdle c → Frame c d → Ends c d v → Core d
  Ends-Core dispatched k i f e = ground arith
  Ends-Core more k i f e = ground arith
  Ends-Core closed k i f e = ground arith

  pub closed-Inv : Core c → IsIdle c → Frame c d → Refused c d → Inv d
  closed-Inv k i f e = ground (arith, Ends-Core closed k i f e)

module _ {S : Type 0} (c : Client S) where
  pub take_back-Core :
      Bounds c
      → IsIdle c
      → (c.tls ≡ none → length c.tls_spill ≡ 0)
      → Core (take_back c)
        × IsIdle (take_back c)
        × (0 < length (take_back c).tls_spill → (take_back c).read_off ≡ 0)
  unfolding take_back
  take_back-Core b i s = ground (
    arith,
    length-drop c.read_off c.read_buf,
    length-append (client_compact c).read_buf
        (take (read_buf_size - read_len (client_compact c)) c.tls_spill),
    length-take (read_buf_size - read_len (client_compact c)) c.tls_spill,
    length-drop (read_buf_size - read_len (client_compact c)) c.tls_spill,
  )

  pub resume-Inv :
      Core c
      → (c.closing ≡ false → c.final_write ≡ false)
      → (c.in_flight ≡ false → 0 < length c.tls_spill → c.read_off ≡ 0)
      → Inv (resume c)
  unfolding resume
  resume-Inv k f s = elim (Option-cases c.tls) [
    | inl plain ↦ rw (plain, resume) (ground (arith))
    | inr (t, e) ↦ rw (e, resume) (tls_read_flow-Inv c k f s)
  ]

  pub IsReading-IsIdle : IsReading c → c.in_flight ≡ false → IsIdle c
  IsReading-IsIdle r f = ground arith

  pub Inv-IsReading : Inv c → c.closing ≡ false → c.read_armed ≡ true → IsReading c
  Inv-IsReading v o a = ground arith

  pub IsReading-Inv : IsReading c → Inv c
  IsReading-Inv r = ground arith

  pub keep_plaintext-Core :
      (m : Bool) (w : Sweep S) (t : S)
      → IsReading c
      → c.tls ≡ some t
      → Core (keep_plaintext m c w).0
  unfolding keep_plaintext
  keep_plaintext-Core m w t r e = ground (
    arith,
    length-append c.read_buf w.produced,
    length-append c.read_buf (take (read_buf_size - read_len c) w.produced),
    length-append c.tls_spill (drop (read_buf_size - read_len c) w.produced),
    length-take (read_buf_size - read_len c) w.produced,
    length-drop (read_buf_size - read_len c) w.produced,
  )

  pub record Kept (m : Bool) (w : Sweep S) : Type 0 where
    pub closing : (keep_plaintext m c w).0.closing ≡ false
    pub final_write : (keep_plaintext m c w).0.final_write ≡ false
    pub settled :
        (c.in_flight ≡ false → c.read_off ≡ 0)
        → (keep_plaintext m c w).0.in_flight ≡ false
        → (keep_plaintext m c w).0.read_off ≡ 0
    pub nothing :
        Core (keep_plaintext m c w).0
        → not (keep_plaintext m c w).1 ≡ false
        → (length w.produced == 0) ≡ true
        → IsReading (keep_plaintext m c w).0

  pub keep_plaintext-keeps : (m : Bool) (w : Sweep S) → IsReading c → Kept m w
  unfolding keep_plaintext
  keep_plaintext-keeps m w r = record {
    closing = ground arith;
    final_write = ground arith;
    settled = ground arith;
    nothing = λ k h e. ground (
      arith,
      length-append c.read_buf w.produced,
      length-drop (read_buf_size - read_len c) w.produced,
    );
  }

  pub settle-IsReading :
      IsReading c → IsReading (settle c) × ((settle c).in_flight ≡ false → (settle c).read_off ≡ 0)
  unfolding settle
  settle-IsReading r = ground (arith, length-drop c.read_off c.read_buf)

  pub resumed : (s : S) → IsReading c → IsReading (record c { tls = some s })
  resumed s r = ground arith

  pub done : IsReading c → IsReading (record c { tls_hs_done = true })
  done r = ground arith

  pub handshaken :
      (s : S) (n : ℕ) → IsReading c → IsReading (record c { tls = some s; handshake_writes = n })
  handshaken s n r = ground arith

  pub alloc_cb-IsReading :
      IsReading c
      → IsReading (alloc_cb c).0
        × ((alloc_cb c).0.tls ≡ none → read_len (alloc_cb c).0 + (alloc_cb c).1 ≤ read_buf_size)
  unfolding alloc_cb
  alloc_cb-IsReading r = ground (arith, length-drop c.read_off c.read_buf)

  pub on_read_error-Inv : IsReading c → Inv (on_read_error c)
  unfolding on_read_error
  on_read_error-Inv r = ground arith

  pub on_tls_final_write-Inv : Inv c → c.final_write ≡ true → Inv (on_tls_final_write c)
  unfolding on_tls_final_write
  on_tls_final_write-Inv v g = ground arith

  pub on_tls_hs_write-Inv : Inv c → Inv (on_tls_hs_write c true)
  unfolding on_tls_hs_write
  on_tls_hs_write-Inv v = ground arith

  pub Core-IsIdle :
      Core c → c.closing ≡ false → c.final_write ≡ false → c.in_flight ≡ false → IsIdle c
  Core-IsIdle k o g f = ground arith

module _ {S : Type 0} where
  pub deliver-IsReading :
      (c : Client S) (bytes : Bytes)
      → IsReading c
      → read_len c + length bytes ≤ read_buf_size
      → IsReading (deliver c bytes)
  deliver-IsReading c bytes r l = ground (arith, length-append c.read_buf bytes)

  pub written : (c : Client S) → Core c → Core (record c { response_write = false })
  written c k = ground arith
