-- ===== src/Domain/Base64/Examples.antt =====
-- `TWE=`, the encoding of the two letters `Ma`.
use stackchan_atoms3r.Base.{false, some, ◌≡◌, codes, arith}
use stackchan_atoms3r.Domain.Base64.{base64_decode}
use stackchan_atoms3r.Domain.Base64.RoundTrip.{encode, base64_decode-encode}

base64_decode-encode_example : base64_decode (encode (codes "Ma")) false 2 ≡ some (codes "Ma")
base64_decode-encode_example =
    base64_decode-encode (codes "Ma") 2 (omega arith, (omega arith, tt)) (omega arith)
