-- ===== src/TlsWrite/Tests.antt =====
-- freastal/src/server.c: encrypted responses on small inputs.
use freastal.Prelude.{
  ◌+◌, ◌==◌, if◌then◌else◌, ◌≤◌, ◌≡◌, refl, ◌⊎◌, none, ◌++◌, true, some, [], ◌∷◌, length, All,
  arith,
}
use freastal.Sizes.{tls_wbuf_size, tls_wseg_max}
use freastal.TlsWrite.{tls_record_count, tls_slice, Progress, nseg, Env, tls_write_response_impl}
use freastal.TlsWrite.Whole.{sent_bytes, response_whole}
use freastal.TlsWrite.Records.{response_fits}

abbrev plenty : Env
plenty = record {
  rec_overhead = 22;
  wbuf_get = λ _. true;
  bigbuf_get = λ n. some n;
  send = λ _. true;
  unpredicted = λ n. if n == 0 then 27 else 0;
}

response_fits_example :
    (p : Progress) × (tls_write_response_impl plenty (1 ∷ 2 ∷ []) (3 ∷ []) ≡ some p)
    × (nseg p ≤ tls_wseg_max)
    × (length p.sent ≤ tls_wseg_max)
    × All (λ s. s.off ≤ tls_wbuf_size + 27) p.filled
    × (p.seg.off ≤ tls_wbuf_size + 27)
unfolding tls_record_count
response_fits_example =
    response_fits plenty (omega arith) (λ _. refl) (λ _. refl) 27 (λ n. ground arith) (1 ∷ 2 ∷ [])
      (3 ∷ []) (omega arith)

-- One record carries the header and the body, cut at the seam.
sliced : (tls_slice 3 ((1 ∷ 2 ∷ []) ∷ (3 ∷ []) ∷ []) 0 0 3).out ≡ (1 ∷ 2 ∷ []) ∷ (3 ∷ []) ∷ []
unfolding tls_slice
sliced = refl

response_whole_example :
    (tls_write_response_impl plenty (1 ∷ 2 ∷ []) (3 ∷ []) ≡ none)
    ⊎ ((p : Progress) × (tls_write_response_impl plenty (1 ∷ 2 ∷ []) (3 ∷ []) ≡ some p)
        × (sent_bytes p.sent ≡ (1 ∷ 2 ∷ []) ++ (3 ∷ [])))
response_whole_example = response_whole plenty (1 ∷ 2 ∷ []) (3 ∷ [])
