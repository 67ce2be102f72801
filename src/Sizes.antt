-- ===== src/Sizes.antt =====
-- The capacities of freastal/src/server.h, in bytes unless said otherwise.
use freastal.Prelude.{ℕ, ◌+◌, ◌*◌}

-- READ_BUF_SIZE: what read_buf may keep.
abbrev pub read_buf_size : ℕ
read_buf_size = 16 * 1024

-- TLS_RECORD_OVERHEAD: record header, inner content type, AEAD tag.
abbrev pub tls_record_overhead : ℕ
tls_record_overhead = 22

-- READ_BUF_ALLOC: read_buf with its decryption slack.
abbrev pub read_buf_alloc : ℕ
read_buf_alloc = read_buf_size + tls_record_overhead

-- TLS_MAX_ENC_RECORD
abbrev pub tls_max_enc_record : ℕ
tls_max_enc_record = 16384 + 256

-- TLS_ENC_BUF_SIZE: the ciphertext one read may deliver.
abbrev pub tls_enc_buf_size : ℕ
tls_enc_buf_size = 5 + tls_max_enc_record

-- TLS_SPILL_SIZE: the plaintext kept beside a full read_buf.
abbrev pub tls_spill_size : ℕ
tls_spill_size = tls_enc_buf_size + tls_max_enc_record

-- RESP_HDR_SIZE: the largest response header block.
abbrev pub resp_hdr_size : ℕ
resp_hdr_size = 8 * 1024

-- TLS_MAX_RECORD_PLAINTEXT
abbrev pub tls_max_record_plaintext : ℕ
tls_max_record_plaintext = 16 * 1024

-- TLS_WBUF_SIZE: the data area of a recycled encryption block.
abbrev pub tls_wbuf_size : ℕ
tls_wbuf_size = tls_max_record_plaintext + 512

-- TLS_WSEG_MAX: blocks one response may claim.
abbrev pub tls_wseg_max : ℕ
tls_wseg_max = 128
