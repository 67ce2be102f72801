-- ===== src/HeaderSyntax/Tests.antt =====
-- freastal/src/hdrvalid.h: the checks on small inputs.
use freastal.Prelude.{◌≡◌, refl, true, false, [], Bytes}
use freastal.Ascii.{codes}
use freastal.HeaderSyntax.{name_bytes_ok, freastal_tchar, hdr_name_ok, hdr_value_ok, status_ok}

abbrev etag : Bytes
etag = codes "x-tag"

accepted_status : status_ok (codes "200 OK") ≡ true
unfolding status_ok hdr_value_ok
accepted_status = refl

split_status : status_ok (codes "200 OK\r\nSet-Cookie: a=b") ≡ false
unfolding status_ok hdr_value_ok
split_status = refl

accepted_name : hdr_name_ok etag ≡ true
unfolding hdr_name_ok name_bytes_ok freastal_tchar
accepted_name = refl

empty_name : hdr_name_ok [] ≡ false
unfolding hdr_name_ok
empty_name = refl
