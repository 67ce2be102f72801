-- ===== src/Connection/State.antt =====
-- freastal/src/server.c, one connection: the read buffer of client_t and its bookkeeping.
-- `read_buf` is the array up to read_len, so read_len is its length; what lies past read_len is
-- never read. libuv's side of the handle is kept beside the struct: whether
-- it is closing, how often uv_close was called, and which of its writes have not completed.
use freastal.Prelude.{
  ℕ, ◌+◌, ◌-◌, ◌^◌, ◌%◌, Bool, true, false, not, ◌&&◌, Option, none, some, List, [], Bytes, length,
  drop, ltb, if◌then◌else◌,
}
use freastal.Sizes.{read_buf_size, tls_enc_buf_size}

pub record Client (S : Type 0) : Type 0 where
  pub read_buf : Bytes
  pub read_off : ℕ
  pub last_len : ℕ
  -- the request that was parsed last
  pub headers_end : ℕ
  pub content_length : ℕ
  pub minor_version : ℕ
  pub keep_alive : Bool
  pub in_flight : Bool
  pub read_armed : Bool
  -- the encrypted side: the session of picotls, none on a plaintext connection
  pub tls : Option S
  pub tls_hs_done : Bool
  pub tls_broken : Bool
  pub tls_spill : Bytes
  -- libuv's view of the handle
  pub closing : Bool
  pub closes : ℕ
  pub response_write : Bool
  pub final_write : Bool
  pub handshake_writes : ℕ
  -- whether a handshake write has completed with an error
  pub handshake_failed : Bool
  -- what http_dispatch() itself wrote to the socket unencrypted, newest first
  pub clear_writes : List Bytes
  -- the history: the plaintext that arrived, the part of it that no buffer could take, and the
  -- bytes of each request handed to the application, newest first
  pub received : Bytes
  pub lost : Bytes
  pub served : List Bytes

-- whether the bit pattern of a C `int` stands for a positive number
abbrev pub is_positive_int : ℕ → Bool
is_positive_int n = ltb 0 n && ltb n (2 ^ 31)

module _ {S : Type 0} where
  abbrev pub read_len : Client S → ℕ
  read_len c = length c.read_buf

  abbrev pub client_buffered : Client S → ℕ
  client_buffered c = read_len c - c.read_off

  -- the bytes from read_off on
  abbrev pub unread : Client S → Bytes
  unread c = drop c.read_off c.read_buf

  abbrev pub uv_close : Client S → Client S
  uv_close c = record c { closing = true; closes = c.closes + 1 }

  -- uv_read_stop() with the flag that the code keeps in step with it
  abbrev pub stop_reading : Client S → Client S
  stop_reading c = record c { read_armed = false }

  -- uv_read_start() with that flag
  abbrev pub start_reading : Client S → Client S
  start_reading c = record c { read_armed = true }

  unfoldable pub client_compact : Client S → Client S
  client_compact c = if ltb 0 c.read_off then record c { read_buf = unread c; read_off = 0 } else c

  -- The guard under which a callback reclaims the consumed prefix.
  unfoldable pub settle : Client S → Client S
  unfolding client_compact
  settle c = if not c.in_flight && ltb 0 c.read_off then client_compact c else c

  -- the C `int` that headers_end + (int)content_length is, as its bit pattern
  abbrev pub consumed : Client S → ℕ
  consumed c = (c.headers_end + c.content_length % 2 ^ 32) % 2 ^ 32

  -- what client_reset() clears beside the buffer
  abbrev clear_request : Client S → Client S
  clear_request c = record c {
    last_len = 0;
    minor_version = 0;
    headers_end = 0;
    content_length = 0;
  }

  unfoldable pub client_reset : Client S → Client S
  client_reset c =
      if is_positive_int (consumed c) && ltb (consumed c) (client_buffered c)
      then clear_request (record c { read_off = c.read_off + consumed c })
      else clear_request (record c { read_buf = []; read_off = 0 })

  -- The room that alloc_cb() offers a read; 0 makes libuv report UV_ENOBUFS. An encrypted read
  -- goes to a buffer of its own.
  unfoldable pub alloc_cb : Client S → Client S × ℕ
  unfolding settle
  alloc_cb c = elim c.tls [
    | some _ ↦ (c, tls_enc_buf_size)
    | none ↦ let c' = settle c in (c', read_buf_size - read_len c')
  ]
