-- ===== src/Startup/Tests.antt =====
-- freastal/src/server.c, tls.c and freastalmodule.c: a start on small inputs.
use freastal.Prelude.{ℕ, ◌≡◌, refl, ◌⊎◌, true, false, none, some, [], ◌∷◌}
use freastal.Ascii.{codes}
use freastal.TicketRing.{Random, ticket_key_mint, ring_init}
use freastal.TicketRing.Shared.{SharedRing, ring_create, ring_attach, shared, ticket_key_cb}
use freastal.TicketRing.Hook.{Process}
use freastal.TicketRing.Region.{
  Kernel, Os, Owner, refused, with_fd, created, os_error, zeroed, tls_ticket_ring_create,
  tls_ticket_ring_destroy, ring_name,
}
use freastal.TicketRing.Region.Life.{reads, rotate_all, ring_life}
use freastal.TlsServer.{TlsFiles, tls_server_init}
use freastal.TlsServer.Ready.{IsServed, tls_server_init_lem}
use freastal.Startup.{bound_as, Arguments, Machine, serve_init, Server, clear_server}
use freastal.AsgiServer.{AsgiPython, descriptor}
use freastal.Startup.ServeAsgi.{py_serve_asgi, IsEnd, py_serve_asgi_lem}
use freastal.Startup.Files.{lone_file_ignored}

abbrev seed : Random
seed = record { name_bytes = 1 ∷ []; aes_bytes = 2 ∷ []; hmac_bytes = 3 ∷ [] }

abbrev spare : Random
spare = record { name_bytes = 4 ∷ []; aes_bytes = 5 ∷ []; hmac_bytes = 6 ∷ [] }

abbrev linux : Os
linux = record {
  is_linux = true;
  memfd_create = some 5;
  open_proc = some 6;
  name_bytes = λ n. [];
  shm_open = λ n. refused;
  shm_open_read_only = λ n. none;
  sysconf = some 4096;
  ftruncate = true;
  mmap = true;
  mlock = true;
}

abbrev kernel : Kernel
kernel = record { descriptors = 3 ∷ 4 ∷ []; names = []; maps = []; locks = []; page = none }

abbrev no_owner : Owner
no_owner = record { owned = false; owned_len = 0; owned_locked = false; owned_fd = none }

abbrev first_ring : SharedRing
first_ring = ring_create 1000 41 seed

ring_life_example :
    let (o', k', r) = tls_ticket_ring_create linux 700 1000 41 seed no_owner kernel in
    let (o'', k'') = tls_ticket_ring_destroy o' (rotate_all ((2000, spare) ∷ []) o' k') in
    ((r ≡ os_error) × (o' ≡ no_owner) × (k' ≡ kernel))
    ⊎ ((ro : ℕ) × (r ≡ created ro)
        × (k'.page ≡ some first_ring)
        × (ring_attach first_ring ≡ some first_ring)
        × (ticket_key_cb (shared (reads first_ring)) spare [] true ≡ some (ticket_key_mint seed))
        × (ticket_key_cb (shared (reads zeroed)) spare [] false ≡ none)
        × (k'' ≡ record (with_fd ro kernel) { page = some zeroed })
        × (tls_ticket_ring_destroy o'' k'' ≡ (o'', k'')))
ring_life_example =
    ring_life linux 700 1000 41 seed spare [] ((2000, spare) ∷ []) no_owner kernel refl refl

abbrev files : TlsFiles
files = record {
  load_certificates = true;
  fopen = true;
  private_key = true;
  random = seed;
  ring_size = 700;
  shown = first_ring;
}

abbrev fresh_process : Process
fresh_process = record {
  g_ring_owned = none;
  tls_enabled = false;
  ticket_shared = none;
  ticket_shared_len = 0;
  ticket_lifetime = 0;
  encrypt_ticket = false;
  local_ring = ring_init spare;
}

tls_server_init_lem_example :
    IsServed linux files
      (some 4)
      fresh_process
      kernel
      (tls_server_init linux files (some 4) fresh_process kernel)
tls_server_init_lem_example = tls_server_init_lem linux files (some 4) fresh_process kernel

abbrev machine : Machine
machine = record {
  build = record { has_tls = true; has_reuse_port = true };
  python = record {
    intern = λ t. true;
    from_string = λ t. true;
    version = true;
    has_stderr = true;
    pool = true;
    hdr_cache = true;
    empty_input = true;
    template = true;
  };
  network = record {
    dup = λ fd. some 9;
    uv_tcp_open = λ fd. true;
    uv_ip4_addr = λ host port. some host;
    uv_tcp_bind = λ address flag. bound_as 8;
    uv_listen = true;
  };
  os = linux;
  files = files;
}

abbrev arguments : Arguments
arguments = record {
  host = codes "127.0.0.1";
  port = 8443;
  reuse_port = false;
  certfile = some (codes "cert.pem");
  keyfile = some (codes "key.pem");
  listen_fd = some 3;
  ring_fd = some 4;
}

abbrev idle_server : Server
idle_server = clear_server arguments fresh_process

lone_file_ignored_example :
    serve_init machine
      (record arguments { certfile = some (codes "cert.pem"); keyfile = none })
      idle_server
      kernel
    ≡ serve_init machine (record arguments { certfile = none; keyfile = none }) idle_server kernel
lone_file_ignored_example =
    lone_file_ignored machine arguments (some (codes "cert.pem")) none idle_server kernel refl refl

name_of_region : ring_name (1 ∷ 171 ∷ []) ≡ codes "/f01ab"
unfolding ring_name
name_of_region = refl

abbrev asyncio : AsgiPython
asyncio = record {
  attribute = λ n. true;
  intern = λ t. true;
  set_running_loop = true;
  protocol_module = true;
  run_asgi_request = true;
  empty_bytes = true;
  version_dict = true;
  version = true;
  server_tuple = λ host port. true;
  new_dict = true;
  set_item = λ k. true;
  copy_dict = true;
  set_scheme = true;
  selector = descriptor 7;
  uv_poll_init = λ fd. true;
}

py_serve_asgi_lem_example :
    IsEnd machine asyncio true arguments idle_server kernel
      (py_serve_asgi machine asyncio true arguments idle_server kernel)
py_serve_asgi_lem_example = py_serve_asgi_lem machine asyncio true arguments idle_server kernel
