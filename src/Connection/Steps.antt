-- ===== src/Connection/Steps.antt =====
-- What libuv and the application can make happen to a connection of freastal/src/server.c, one
-- callback at a time, and the states that a connection can reach.
use freastal.Prelude.{◌≤◌, ◌<◌, ◌≡◌, Bool, true, false, Option, Bytes, length}
use freastal.Connection.State.{Client, alloc_cb}
use freastal.Connection.Dispatch.{Env}
use freastal.Connection.Callbacks.{
  accepted_client, on_read_error, on_tls_hs_write, on_tls_final_write, on_read, on_write,
  late_response,
}

module _ {S : Type 0} (env : Env S) where
  -- libuv reads only while reading is armed and the handle is open, and into the room that
  -- alloc_cb() offered; a write completes once, with an error if the handle is closing. A suspended
  -- application responds once to a request, so that no write of the connection is pending then, and
  -- the handle is open unless a handshake write has failed; the code does not check that.
  pub data Step (c : Client S) : Client S → Type 0 where
    read_data :
        (memory : Bool) (bytes : Bytes)
        → c.read_armed ≡ true
        → c.closing ≡ false
        → length bytes ≤ (alloc_cb c).1
        → Step c (on_read env memory (alloc_cb c).0 bytes)
    read_error : c.read_armed ≡ true → c.closing ≡ false → Step c (on_read_error (alloc_cb c).0)
    response_written :
        (sent : Bool)
        → c.response_write ≡ true
        → (c.closing ≡ true → sent ≡ false)
        → Step c (on_write env c sent)
    final_written : c.final_write ≡ true → Step c (on_tls_final_write c)
    handshake_written : (sent : Bool) → 0 < c.handshake_writes → Step c (on_tls_hs_write c sent)
    responds :
        c.in_flight ≡ true
        → c.response_write ≡ false
        → c.final_write ≡ false
        → (c.closing ≡ true → c.handshake_failed ≡ true)
        → Step c (late_response env c)

  pub data Reach (tls : Option S) : Client S → Type 0 where
    accepted : Reach tls (accepted_client tls)
    later : {c d : Client S} → Reach tls c → Step c d → Reach tls d
