-- ===== src/Wire/Header.antt =====
-- The headers of a request and of a response in proto/rpc_msg.c. A header is a record here, where
-- the source has out parameters.
pub mod RoundTrip
use eloquence.Base.{ℕ, List, ◌++◌, Option, none, some, if◌then◌else◌, add32, be32, be16}
use eloquence.Wire.Buffer.{Buf, rpc_buf_ensure, append_bytes}
use eloquence.Wire.Decode.{Parser, check_remaining, load_be32, load_be16}

pub record RequestHeader : Type 0 where
  pub seq : ℕ
  pub func_id : ℕ

pub record ResponseHeader : Type 0 where
  pub seq : ℕ
  pub retval : ℕ
  pub error : ℕ

-- The bytes of the headers: [uint32 seq][uint16 func_id], [uint32 seq][int32 retval][uint16 error].
abbrev pub request_header_bytes : ℕ → ℕ → List ℕ
request_header_bytes seq func_id = be32 seq ++ be16 func_id

abbrev pub response_header_bytes : ℕ → ℕ → ℕ → List ℕ
response_header_bytes seq retval error = be32 seq ++ (be32 retval ++ be16 error)

pub rpc_encode_request_header : Buf → ℕ → ℕ → Option Buf
rpc_encode_request_header b seq func_id =
    append_bytes (append_bytes (rpc_buf_ensure b 6) (be32 seq)) (be16 func_id)

pub rpc_encode_response_header : Buf → ℕ → ℕ → ℕ → Option Buf
rpc_encode_response_header b seq retval error =
    append_bytes (append_bytes (append_bytes (rpc_buf_ensure b 10) (be32 seq)) (be32 retval))
      (be16 error)

unfoldable pub rpc_decode_request_header : Parser RequestHeader
rpc_decode_request_header buf pos =
    if check_remaining buf pos 6
    then (let p = add32 pos 4 in
        (some (record { seq = load_be32 buf pos; func_id = load_be16 buf p }), add32 p 2))
    else (none, pos)

pub rpc_decode_response_header : Parser ResponseHeader
rpc_decode_response_header buf pos =
    if check_remaining buf pos 10
    then (let p = add32 pos 4 in
        let q = add32 p 4 in
        (
          some (record {
            seq = load_be32 buf pos;
            retval = load_be32 buf p;
            error = load_be16 buf q;
          }),
          add32 q 2,
        ))
    else (none, pos)
