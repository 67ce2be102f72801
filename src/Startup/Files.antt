-- ===== src/Startup/Files.antt =====
-- freastal/src/server.c, server_init(): a certificate or a key that comes alone.
use freastal.Prelude.{
  ◌≡◌, refl, sym, ap, ◌∙◌, true, false, else_of, not, ◌&&◌, ◌||◌, Option, none, is_some, Bytes,
  arith,
}
use freastal.Startup.{
  Arguments, Rc, ok, failed, Server, Machine, clear_server, prepare, bind_address, open_listener,
  start_tls, listen_and_start, after_prepare, server_init, close_ring, with_exception, serve_init,
}
use freastal.TicketRing.Region.{Kernel}

-- Two lists of arguments that differ in the files only.
abbrev with_files : Option Bytes → Option Bytes → Arguments → Arguments
with_files c f args = record args { certfile = c; keyfile = f }

start_tls-lone :
    (m : Machine) (args : Arguments) (c f : Option Bytes) (s : Server) (k : Kernel)
    → (is_some c && is_some f) ≡ false
    → start_tls m (with_files c f args) s k ≡ (s, k, ok)
unfolding start_tls
start_tls-lone m args c f s k e = ground arith

listen-lone :
    (m : Machine) (args : Arguments) (c f : Option Bytes) (r : Server × Kernel × Rc)
    → (is_some c && is_some f) ≡ false
    → listen_and_start m (with_files c f args) r ≡ listen_and_start m (with_files none none args) r
unfolding listen_and_start
listen-lone m args c f (s, k, failed x) e = refl
listen-lone m args c f (s, k, ok) e =
    let s' = record s { listening = true } in
    rw (start_tls-lone m args c f s' k e, start_tls-lone m args none none s' k refl) refl

prepared-lone :
    (m : Machine) (args : Arguments) (c f : Option Bytes) (k : Kernel) (r : Server × Rc)
    → (is_some c && is_some f) ≡ false
    → after_prepare m (with_files c f args) k r ≡ after_prepare m (with_files none none args) k r
unfolding after_prepare open_listener bind_address
prepared-lone m args c f k (s, failed x) e = refl
prepared-lone m args c f k (s, ok) e = listen-lone m args c f _ e

server_init-lone :
    (m : Machine) (args : Arguments) (c f : Option Bytes) (g : Server) (k : Kernel)
    → m.build.has_tls ≡ true
    → (is_some c && is_some f) ≡ false
    → server_init m (with_files c f args) g k ≡ server_init m (with_files none none args) g k
unfolding server_init
server_init-lone m args c f g k h e =
    else_of (not m.build.has_tls && (is_some c || is_some f)) _ _ (rw h refl)
    ∙ prepared-lone m args c f k (prepare m (clear_server args g.tls.process)) e
    ∙ sym (else_of (not m.build.has_tls && false) _ _ (rw h refl))

-- In a build with TLS, a certificate without a key, or a key without a certificate, is ignored: the
-- server starts, or fails, exactly as it does with neither, in plaintext.
pub lone_file_ignored :
    (m : Machine) (args : Arguments) (c f : Option Bytes) (g : Server) (k : Kernel)
    → m.build.has_tls ≡ true
    → (is_some c && is_some f) ≡ false
    → serve_init m (record args { certfile = c; keyfile = f }) g k
      ≡ serve_init m (record args { certfile = none; keyfile = none }) g k
unfolding serve_init
lone_file_ignored m args c f g k h e =
    ap (λ (r : Server × Kernel × Rc). (r.0, close_ring args.ring_fd r.1, with_exception r.2))
      (server_init-lone m args c f g k h e)
