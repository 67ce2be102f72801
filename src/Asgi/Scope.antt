-- ===== src/Asgi/Scope.antt =====
-- freastal/src/asgi.c, build_asgi_scope(): the scope of a request, with its template. A key of the
-- scope is a field, since the template has all twelve and nothing is added; type and asgi, which are
-- the same in every scope, are left out. None is none.
use freastal.Prelude.{
  ℕ, ◌≡◌, refl, sym, ap, ◌∙◌, Bool, false, Option, none, some, List, [], ◌∷◌, map, Bytes, bytes_eq,
  bytes_eq_sound, if_cases, Bool-cases, ◌⊎◌, inl, inr, ◌==◌, if◌then◌else◌,
}
use freastal.Ascii.{codes, to_lower}
use freastal.HeaderCache.{HdrCacheEntry, HdrTable, hdr_names, make_entry, hdr_cache_lookup}
use freastal.HeaderCache.Lookup.{hdr_table, find, hdr_cache_lookup_lem}
use freastal.Environ.{Request, split_query}
use freastal.Environ.Slots.{IsCut, split_query-IsCut}

pub record Scope : Type 0 where
  pub root_path : Bytes
  pub scheme : Bytes
  pub server : Bytes × ℕ
  pub http_version : Bytes
  pub method : Option Bytes
  pub path : Option Bytes
  pub raw_path : Option Bytes
  pub query_string : Bytes
  pub client : Option (Bytes × ℕ)
  pub headers : Option (List (Bytes × Bytes))

-- The template of asgi_server_init(), and its copy for encrypted connections.
unfoldable pub scope_template : Bytes × ℕ → Bool → Scope
scope_template server is_tls = record {
  root_path = [];
  scheme = if is_tls then codes "https" else codes "http";
  server = server;
  http_version = codes "1.1";
  method = none;
  path = none;
  raw_path = none;
  query_string = [];
  client = none;
  headers = none;
}

-- The bytes object of a header's name.
unfoldable pub asgi_name : HdrTable → Bytes → Bytes
asgi_name cache name = elim (hdr_cache_lookup cache name) [
  | some e ↦ e.name
  | none ↦ map to_lower name
]

unfoldable pub asgi_headers : HdrTable → List (Bytes × Bytes) → List (Bytes × Bytes)
asgi_headers cache [] = []
asgi_headers cache ((name, v) ∷ hs) = (asgi_name cache name, v) ∷ asgi_headers cache hs

-- The stores into the copy of the template.
unfoldable pub fill_scope : HdrTable → Scope → ℕ → Request → Scope
fill_scope cache template peer_port r =
    let (info, query) = split_query r.path in
    record template {
      http_version = if r.minor_version == 1 then template.http_version else codes "1.0";
      method = some r.method;
      path = some info;
      raw_path = some info;
      query_string = elim query [ none ↦ template.query_string | some q ↦ q ];
      client = some (r.peer_addr, peer_port);
      headers = some (asgi_headers cache r.headers);
    }

-- is_utf8 tells whether CPython decodes the bytes as UTF-8; a str that was decoded is its bytes. An
-- exception is none.
unfoldable pub build_asgi_scope : (Bytes → Bool) → HdrTable → Scope → ℕ → Request → Option Scope
build_asgi_scope is_utf8 cache template peer_port r =
    if is_utf8 r.method
    then (if is_utf8 (split_query r.path).0
        then some (fill_scope cache template peer_port r)
        else none)
    else none

name_or : Bytes → Option HdrCacheEntry → Bytes
name_or name o = elim o [ some e ↦ e.name | none ↦ name ]

name_or-find :
    (name : Bytes) (names : List Bytes) → name_or name (find name (map make_entry names)) ≡ name
unfolding name_or make_entry
name_or-find name [] = refl
name_or-find name (n ∷ ns) =
    if_cases (λ o. name_or name o ≡ name) (bytes_eq name n) (λ e. sym (bytes_eq_sound name n e))
      λ e. name_or-find name ns

asgi_name_lem : (name : Bytes) → asgi_name hdr_table name ≡ map to_lower name
unfolding asgi_name name_or hdr_table
asgi_name_lem name =
    ap (name_or (map to_lower name)) (hdr_cache_lookup_lem name).1
    ∙ name_or-find (map to_lower name) hdr_names

-- The headers with their names in lower case.
abbrev pub lowered : List (Bytes × Bytes) → List (Bytes × Bytes)
lowered [] = []
lowered ((name, v) ∷ hs) = (map to_lower name, v) ∷ lowered hs

asgi_headers_lem : (hs : List (Bytes × Bytes)) → asgi_headers hdr_table hs ≡ lowered hs
unfolding asgi_headers
asgi_headers_lem [] = refl
asgi_headers_lem ((name, v) ∷ hs) = rw (asgi_name_lem name, asgi_headers_lem hs) refl

-- The scope of a request, with nothing left of the template's placeholders.
abbrev pub IsScope : Request → ℕ → Scope → Type 0
IsScope r peer_port s =
    (info : Bytes) × (query : Option Bytes) × (s.method ≡ some r.method)
    × (s.path ≡ some info)
    × (s.raw_path ≡ some info)
    × (s.query_string ≡ elim query [ none ↦ [] | some q ↦ q ])
    × IsCut r.path (info, query)
    × (s.client ≡ some (r.peer_addr, peer_port))
    × (s.headers ≡ some (lowered r.headers))

-- build_asgi_scope() raises just if the method or the path up to the first question mark is not
-- UTF-8, and otherwise gives a scope with the method, that path as a str and as bytes, what follows
-- the question mark, the peer, and every header in order with its name in lower case.
pub build_asgi_scope_lem :
    (is_utf8 : Bytes → Bool) (server : Bytes × ℕ) (peer_port : ℕ) (r : Request)
    → ((build_asgi_scope is_utf8 hdr_table (scope_template server r.is_tls) peer_port r ≡ none)
        × ((is_utf8 r.method ≡ false) ⊎ (is_utf8 (split_query r.path).0 ≡ false)))
      ⊎ ((s : Scope) × (build_asgi_scope is_utf8 hdr_table
              (scope_template server r.is_tls)
              peer_port
              r
            ≡ some s)
          × IsScope r peer_port s)
unfolding build_asgi_scope scope_template fill_scope
build_asgi_scope_lem is_utf8 server port r = elim (Bool-cases (is_utf8 r.method)) [
  | inr e ↦ inl (rw (e, build_asgi_scope) refl, inl e)
  | inl e ↦ elim (Bool-cases (is_utf8 (split_query r.path).0)) [
    | inr f ↦ inl (rw (e, f, build_asgi_scope) refl, inr f)
    | inl f ↦ inr (
      fill_scope hdr_table (scope_template server r.is_tls) port r,
      rw (e, f, build_asgi_scope) refl,
      (
        (split_query r.path).0,
        (split_query r.path).1,
        refl,
        refl,
        refl,
        refl,
        split_query-IsCut r.path,
        refl,
        ap some (asgi_headers_lem r.headers),
      ),
    )
  ]
]
