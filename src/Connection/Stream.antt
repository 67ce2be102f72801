-- ===== src/Connection/Stream.antt =====
-- freastal/src/server.c: where the plaintext of a connection is, in requests already handed over, in
-- read_buf, in the spill, or lost to a failed stash.
use freastal.Prelude.{
  ℕ, ◌+◌, ◌-◌, ◌≤◌, ◌≡◌, ◌⊎◌, Bool, true, false, List, [], ◌∷◌, ◌++◌, append_assoc, append-nil,
  Bytes, length, take, drop, take-append-drop, drop-append, drop-drop, drop_all, length-drop,
  length_zero, ◌==◌, if◌then◌else◌, if_cases, option_cases, arith,
}
use freastal.Sizes.{read_buf_size}
use freastal.Connection.State.{
  Client, read_len, unread, client_buffered, client_compact, client_reset, settle,
}
use freastal.Connection.Encrypted.{refill, tls_read_failed, tls_read_flow, Sweep, keep_plaintext}
use freastal.Connection.Callbacks.{deliver, throttle, resume, take_back}
use freastal.Connection.Bounds.{Bounds, consumed-eq}

-- The bytes of the requests handed over, in order; the newest is the head of the list.
abbrev pub spoken : List Bytes → Bytes
spoken [] = []
spoken (r ∷ rs) = spoken rs ++ r

module _ {S : Type 0} where
  -- What follows the request in flight in read_buf, or all of it if none is.
  abbrev pub rest : Client S → Bytes
  rest c = if c.in_flight then drop (c.headers_end + c.content_length) (unread c) else unread c

  abbrev pub History : Client S → Type 0
  History c = c.received ≡ spoken c.served ++ (rest c ++ (c.tls_spill ++ c.lost))

  -- Plaintext is lost only on a connection that is given up, and that one reads no more.
  pub record Breaks (c : Client S) : Type 0 where
    pub intact : c.tls_broken ≡ false → c.lost ≡ []
    pub stops :
        c.tls_broken ≡ true
        → (c.closing ≡ true)
          ⊎ ((c.keep_alive ≡ false) × (c.read_armed ≡ false) × (c.in_flight ≡ true))

  pub record Same (c d : Client S) : Type 0 where
    pub received : d.received ≡ c.received
    pub served : d.served ≡ c.served
    pub rest_eq : rest d ≡ rest c
    pub spill : d.tls_spill ≡ c.tls_spill
    pub lost : d.lost ≡ c.lost

  pub Same-History : {c d : Client S} → Same c d → History c → History d
  Same-History s h = rw (s.received, s.served, s.rest_eq, s.spill, s.lost) h

-- Appending to a stream that ends in read_buf.
grow : (r a x bs : Bytes) → r ≡ a ++ (x ++ []) → r ++ bs ≡ a ++ ((x ++ bs) ++ [])
grow r a x bs h = rw h (simp (append-nil, append_assoc))

module _ {S : Type 0} (c : Client S) where
  pub settle-Same : Same c (settle c)
  unfolding settle
  settle-Same = ground arith

  pub throttle-Same : Same c (throttle c)
  throttle-Same = ground arith

  pub tls_read_failed-Same : Same c (tls_read_failed c)
  unfolding tls_read_failed
  tls_read_failed-Same = ground arith

  pub tls_read_flow-Same : Same c (tls_read_flow c)
  unfolding tls_read_flow
  tls_read_flow-Same = ground arith

  pub resume-Same : Same c (resume c)
  unfolding resume
  resume-Same = ground (arith, tls_read_flow-Same)

  rest-deliver :
      (bytes : Bytes)
      → c.read_off ≤ read_len c
      → (c.in_flight ≡ true → c.headers_end + c.content_length ≤ client_buffered c)
      → rest (deliver c bytes) ≡ rest c ++ bytes
  rest-deliver bytes o q = ground (
    arith,
    drop-append c.read_off c.read_buf bytes o,
    drop-append (c.headers_end + c.content_length) (unread c) bytes,
    length-drop c.read_off c.read_buf,
  )

  pub deliver-History :
      (bytes : Bytes)
      → c.read_off ≤ read_len c
      → (c.in_flight ≡ true → c.headers_end + c.content_length ≤ client_buffered c)
      → c.tls_spill ≡ []
      → c.lost ≡ []
      → History c
      → History (deliver c bytes)
  deliver-History bytes o q s l h =
      ground (arith, rest-deliver bytes o q, grow c.received (spoken c.served) (rest c) bytes)

  -- What client_reset() leaves is what followed the request.
  reset-rest : Bounds c → c.in_flight ≡ true → unread (client_reset c) ≡ rest c
  unfolding client_reset
  reset-rest b f = ground (
    arith,
    consumed-eq c b f,
    drop-drop c.read_off (c.headers_end + c.content_length) c.read_buf,
    drop_all (c.headers_end + c.content_length) (unread c),
    length-drop c.read_off c.read_buf,
  )

  reset-same :
      (client_reset c).received ≡ c.received
      × (client_reset c).served ≡ c.served
      × (client_reset c).tls_spill ≡ c.tls_spill
      × (client_reset c).lost ≡ c.lost
  unfolding client_reset
  reset-same = ground arith

  pub reset-History :
      Bounds c
      → c.in_flight ≡ true
      → History c
      → History (record (client_reset c) { in_flight = false })
  reset-History b f h = ground (arith, reset-rest b f, reset-same)

  refill-unread :
      c.read_off ≡ 0 → unread (refill c) ++ (refill c).tls_spill ≡ unread c ++ c.tls_spill
  refill-unread z = ground (
    arith,
    append_assoc c.read_buf (take (read_buf_size - read_len c) c.tls_spill)
        (drop (read_buf_size - read_len c) c.tls_spill),
    take-append-drop (read_buf_size - read_len c) c.tls_spill,
  )

  refill-History : c.in_flight ≡ false → c.read_off ≡ 0 → History c → History (refill c)
  refill-History f z h = ground (
    arith,
    refill-unread z,
    append_assoc (unread c) c.tls_spill c.lost,
    append_assoc (unread (refill c)) (refill c).tls_spill c.lost,
  )

  compact-Same : Same c (client_compact c) × ((client_compact c).read_off ≡ 0)
  unfolding client_compact
  compact-Same = ground arith

  compact_free : c.in_flight ≡ false → (client_compact c).in_flight ≡ false
  unfolding client_compact
  compact_free f = ground arith

  -- A sweep is kept in parts, in order: in read_buf, in the spill, and what is lost.
  abbrev keep_parts : Bytes → Bytes → Bytes → Client S
  keep_parts t s l = record c {
    received = c.received ++ (t ++ (s ++ l));
    read_buf = c.read_buf ++ t;
    tls_spill = s;
    lost = l;
  }

  keep_parts-History :
      (t s l : Bytes)
      → Bounds c
      → c.tls_spill ≡ []
      → c.lost ≡ []
      → History c
      → History (keep_parts t s l)
  keep_parts-History t s l b e z h = ground (
    arith,
    rest-deliver t,
    append-nil (rest c),
    append_assoc (spoken c.served) (rest c) (t ++ (s ++ l)),
    append_assoc (rest c) t (s ++ l),
  )

module _ {S : Type 0} (c : Client S) where
  pub take_back-History : c.in_flight ≡ false → History c → History (take_back c)
  unfolding take_back
  take_back-History f h =
      option_cases History c.tls (λ _. h)
        λ _ _.
          if_cases History (length c.tls_spill == 0) (λ _. h)
            λ _.
              refill-History (client_compact c) (compact_free c f) (compact-Same c).1
                (Same-History (compact-Same c).0 h)

  pub keep_plaintext-History :
      (m : Bool) (w : Sweep S)
      → Bounds c
      → c.tls_spill ≡ []
      → c.lost ≡ []
      → History c
      → History (keep_plaintext m c w).0
  unfolding keep_plaintext
  keep_plaintext-History m w b e z h = ground (
    arith,
    keep_parts-History c w.produced [] [] b e z h,
    keep_parts-History c (take room w.produced) (drop room w.produced) [] b e z h,
    keep_parts-History c (take room w.produced) [] (drop room w.produced) b e z h,
    keep_parts-History c [] [] w.produced b e z h,
    append-nil w.produced,
    append-nil c.read_buf,
    append-nil (drop room w.produced),
    take-append-drop room w.produced,
    length_zero (drop room w.produced),
  )
    where
      room : ℕ
      room = read_buf_size - read_len c
