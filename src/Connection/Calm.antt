-- ===== src/Connection/Calm.antt =====
-- freastal/src/server.c: the plaintext stream of a connection through the parts of a read.
use freastal.Prelude.{
  ℕ, ◌+◌, ◌≡◌, Bool, true, false, some, [], ◌++◌, append_assoc, Bytes, take, drop, take-append-drop,
  length_zero, not, arith,
}
use freastal.Connection.State.{Client, unread, settle}
use freastal.Connection.Dispatch.{Verdict, dispatched, more, closed}
use freastal.Connection.Encrypted.{tls_read_failed, tls_read_flow, Sweep, keep_plaintext}
use freastal.Connection.Callbacks.{deliver, throttle, resume, take_back}
use freastal.Connection.Outcome.{Frame, IsIdle, Ends}
use freastal.Connection.Invariant.{IsReading}
use freastal.Connection.Stream.{
  spoken, History, Breaks, Same-History, settle-Same, throttle-Same, tls_read_failed-Same,
  tls_read_flow-Same, resume-Same, deliver-History, take_back-History,
}

pub record Stream {S : Type 0} (c : Client S) : Type 0 where
  pub history : History c
  pub breaks : Breaks c

-- Nothing was lost, and the connection was not given up.
pub record Calm {S : Type 0} (c : Client S) : Type 0 where
  pub history : History c
  pub unbroken : c.tls_broken ≡ false
  pub intact : c.lost ≡ []

module _ {S : Type 0} (c : Client S) where
  pub Calm-Stream : Calm c → Stream c
  Calm-Stream a = record { history = a.history; breaks = ground arith }

  pub IsReading-Calm : IsReading c → Stream c → Calm c
  IsReading-Calm r s = record {
    history = s.history;
    unbroken = ground arith;
    intact = ground arith;
  }

  pub settle-Calm : Calm c → Calm (settle c)
  unfolding settle
  settle-Calm a = record {
    history = Same-History (settle-Same c) a.history;
    unbroken = ground arith;
    intact = ground arith;
  }

  pub throttle-Calm : Calm c → Calm (throttle c)
  throttle-Calm a = record {
    history = Same-History (throttle-Same c) a.history;
    unbroken = ground arith;
    intact = ground arith;
  }

  pub tls_read_flow-Calm : Calm c → Calm (tls_read_flow c)
  unfolding tls_read_flow
  tls_read_flow-Calm a = record {
    history = Same-History (tls_read_flow-Same c) a.history;
    unbroken = ground arith;
    intact = ground arith;
  }

  pub resume-Calm : Calm c → Calm (resume c)
  unfolding resume tls_read_flow
  resume-Calm a = record {
    history = Same-History (resume-Same c) a.history;
    unbroken = ground arith;
    intact = ground arith;
  }

  pub tls_read_failed-Stream : History c → Stream (tls_read_failed c)
  unfolding tls_read_failed
  tls_read_failed-Stream h = record {
    history = Same-History (tls_read_failed-Same c) h;
    breaks = ground arith;
  }

  pub take_back-Calm : c.in_flight ≡ false → Calm c → Calm (take_back c)
  unfolding take_back
  take_back-Calm f a = record {
    history = take_back-History c f a.history;
    unbroken = ground arith;
    intact = ground arith;
  }

  pub with_session : (s : S) → Calm c → Calm (record c { tls = some s })
  with_session s a = record { history = a.history; unbroken = a.unbroken; intact = a.intact }

  pub with_done : Calm c → Calm (record c { tls_hs_done = true })
  with_done a = record { history = a.history; unbroken = a.unbroken; intact = a.intact }

  pub with_handshake :
      (s : S) (n : ℕ) → Calm c → Calm (record c { tls = some s; handshake_writes = n })
  with_handshake s n a = record { history = a.history; unbroken = a.unbroken; intact = a.intact }

  pub deliver-Calm : (bytes : Bytes) → IsReading c → Calm c → Calm (deliver c bytes)
  deliver-Calm bytes r a = record {
    history =
        deliver-History c bytes r.core.bounds.off_le (λ f. (r.core.bounds.request f).1)
          (length_zero _ r.empty) a.intact a.history;
    unbroken = a.unbroken;
    intact = a.intact;
  }

  pub keep_plaintext-Calm :
      (m : Bool) (w : Sweep S)
      → Calm c
      → not (keep_plaintext m c w).1 ≡ false
      → History (keep_plaintext m c w).0
      → Calm (keep_plaintext m c w).0
  unfolding keep_plaintext
  keep_plaintext-Calm m w a kept h = record {
    history = h;
    unbroken = ground arith;
    intact = ground arith;
  }

  pub keep_plaintext-open :
      (m : Bool) (w : Sweep S)
      → IsReading c
      → ((keep_plaintext m c w).0.closing ≡ false) × ((keep_plaintext m c w).0.final_write ≡ false)
  unfolding keep_plaintext
  keep_plaintext-open m w r = ground arith

module _ {S : Type 0} (c d : Client S) where
  pub Ends-Calm : (v : Verdict) → IsIdle c → Frame c d → Ends c d v → Calm c → Calm d
  Ends-Calm dispatched i f e a = ground (
    arith,
    take-append-drop (d.headers_end + d.content_length) (unread c),
    append_assoc (spoken c.served) (take (d.headers_end + d.content_length) (unread c))
        (drop (d.headers_end + d.content_length) (unread c) ++ (c.tls_spill ++ c.lost)),
    append_assoc (take (d.headers_end + d.content_length) (unread c))
        (drop (d.headers_end + d.content_length) (unread c)) (c.tls_spill ++ c.lost),
  )
  Ends-Calm more i f e a = ground arith
  Ends-Calm closed i f e a = ground arith
