-- ===== src/Connection/Callbacks.antt =====
-- The libuv callbacks of one connection in freastal/src/server.c, from accept to close.
use freastal.Prelude.{
  ◌-◌, Bool, true, false, not, ◌&&◌, ◌||◌, Option, none, some, [], ◌∷◌, ◌++◌, Bytes, leb, ◌==◌,
  if◌then◌else◌,
}
use freastal.Sizes.{read_buf_size}
use freastal.Connection.State.{
  Client, read_len, client_buffered, client_reset, uv_close, stop_reading, start_reading,
}
use freastal.Connection.Dispatch.{Env, http_dispatch, tls_send_final, write_response, closed}
use freastal.Connection.Encrypted.{tls_spill_drain, tls_read_flow, tls_on_read_data}

-- A connection that on_new_connection() has accepted: the cleared prefix, tls_conn_init() if TLS is
-- on, and reading armed.
abbrev pub accepted_client : {S : Type 0} → Option S → Client S
accepted_client tls = record {
  read_buf = [];
  read_off = 0;
  last_len = 0;
  headers_end = 0;
  content_length = 0;
  minor_version = 0;
  keep_alive = false;
  in_flight = false;
  read_armed = true;
  tls = tls;
  tls_hs_done = false;
  tls_broken = false;
  tls_spill = [];
  closing = false;
  closes = 0;
  response_write = false;
  final_write = false;
  handshake_writes = 0;
  handshake_failed = false;
  clear_writes = [];
  received = [];
  lost = [];
  served = [];
}

-- on_new_connection(): nothing for an error of the listener; without a client the connection is
-- accepted and dropped, and one that uv_accept() refuses is closed before it reads.
unfoldable pub on_new_connection : {S : Type 0} → Bool → Bool → Bool → Option S → Option (Client S)
on_new_connection listens allocated accepted tls =
    if listens && (allocated && accepted) then some (accepted_client tls) else none

-- on_read() with `nread < 0`.
unfoldable pub on_read_error : {S : Type 0} → Client S → Client S
on_read_error c = if c.in_flight then stop_reading (record c { keep_alive = false }) else uv_close c

-- on_tls_hs_write(); the flag is `status >= 0`.
unfoldable pub on_tls_hs_write : {S : Type 0} → Client S → Bool → Client S
on_tls_hs_write c sent =
    let c' = record c { handshake_writes = c.handshake_writes - 1 } in
    if sent then c' else uv_close (record c' { handshake_failed = true })

-- on_tls_final_write() closes whatever the status is.
unfoldable pub on_tls_final_write : {S : Type 0} → Client S → Client S
on_tls_final_write c = uv_close (record c { final_write = false })

-- libuv has written the bytes behind read_len.
abbrev pub deliver : {S : Type 0} → Client S → Bytes → Client S
deliver c bytes = record c { read_buf = c.read_buf ++ bytes; received = c.received ++ bytes }

-- The last lines of on_read(): a full buffer behind a response in flight stops the read.
abbrev pub throttle : {S : Type 0} → Client S → Client S
throttle c = if leb read_buf_size (read_len c) && c.in_flight then stop_reading c else c

-- What on_write() does after the dispatch of a request that was already buffered.
unfoldable pub resume : {S : Type 0} → Client S → Client S
resume c = elim c.tls [
  | some _ ↦ tls_read_flow c
  | none ↦ if not c.read_armed && not c.in_flight then start_reading c else c
]

-- on_write() puts back what the spill holds, once the answered request has made room.
unfoldable pub take_back : {S : Type 0} → Client S → Client S
unfolding tls_spill_drain
take_back c = elim c.tls [ some _ ↦ tls_spill_drain c | none ↦ c ]

module _ {S : Type 0} (env : Env S) where
  -- What on_read() does once the bytes of a plaintext connection are in read_buf.
  unfoldable pub proceed : Client S → Client S
  proceed c =
      let (c', verdict) = http_dispatch env c in
      if c.in_flight then throttle c else elim verdict [ closed ↦ c' | _ ↦ throttle c' ]

  -- on_read() with `nread >= 0`; the flag is malloc()'s, for the spill.
  unfoldable pub on_read : Bool → Client S → Bytes → Client S
  on_read memory c [] = c
  on_read memory c (b ∷ bs) = elim c.tls [
    | none ↦ proceed (deliver c (b ∷ bs))
    | some s ↦ tls_on_read_data env memory c s (b ∷ bs)
  ]

  -- The close branch of on_write().
  unfoldable pub finish : Client S → Bool → Client S
  unfolding tls_send_final
  finish c sent = elim c.tls [
    | none ↦ uv_close c
    | some s ↦
        let (c', final) = tls_send_final env c s 0 in
        if sent && not c.tls_broken && c.tls_hs_done
        then (if final then c' else uv_close c')
        else uv_close c
  ]

  -- A pipelined request that is already buffered is dispatched directly.
  unfoldable pub dispatch_buffered : Client S → Client S
  dispatch_buffered c =
      let (c', verdict) = http_dispatch env c in
      if client_buffered c == 0 then resume c else elim verdict [ closed ↦ c' | _ ↦ resume c' ]

  -- The keep-alive branch of on_write().
  unfoldable pub next_request : Client S → Client S
  next_request c = dispatch_buffered (take_back (record (client_reset c) { in_flight = false }))

  -- on_write(); the flag is `status >= 0`.
  unfoldable pub on_write : Client S → Bool → Client S
  on_write c sent =
      let c' = record c { response_write = false } in
      if not sent || not c.keep_alive then finish c' sent else next_request c'

  -- A response that the application sends after it was suspended, by asgi_send_response_c().
  unfoldable pub late_response : Client S → Client S
  late_response c = write_response env c
