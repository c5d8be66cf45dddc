-- ===== src/Tests/Wire.antt =====
-- Runs of the wire format and of the framed sockets.
use eloquence.Base.{
  ℕ, ◌+◌, ◌≡◌, refl, List, [], ◌∷◌, ◌++◌, none, some, arith, length, drop, be32, inl,
}
use eloquence.Wire.Function.{arg_string, max_string_len}
use eloquence.Wire.Buffer.{rpc_buf_init, ensure_within, ensure_endless}
use eloquence.Wire.Encode.{Arg, int32, handle, string, buffer, null}
use eloquence.Wire.Decode.{
  byte_at, check_remaining, rpc_decode_string, rpc_decode_skip, decode_counted, take_counted,
}
use eloquence.Wire.Decode.Position.{At-start}
use eloquence.Wire.Decode.RoundTrip.{args_bytes, decode_all, decode_all-args_bytes}
use eloquence.Wire.Decode.Bounds.{IsSlice, rpc_decode_string_bounds}
use eloquence.Wire.Decode.Skip.{skip_no_progress}
use eloquence.Frame.{Arrival, bytes, eintr, rpc_read_msg}
use eloquence.Frame.Exact.{stream}
use eloquence.Frame.RoundTrip.{msg_bytes, read_msg_receives}

abbrev some_args : List Arg
some_args = handle 1 ∷ string (72 ∷ 105 ∷ []) ∷ null ∷ buffer (9 ∷ []) ∷ int32 7 ∷ []

abbrev some_message : List ℕ
some_message = args_bytes some_args ++ []

decode_all-args_bytes_example :
    decode_all some_args some_message 0 ≡ (some some_args, 0 + length (args_bytes some_args))
decode_all-args_bytes_example =
    decode_all-args_bytes some_args some_message [] 0 (At-start some_message (omega arith))
      (tt, (omega arith, (tt, (omega arith, (tt, tt)))))

rpc_decode_string-read : rpc_decode_string some_message 5 ≡ (some (some (72 ∷ 105 ∷ [])), 12)
unfolding rpc_decode_string check_remaining decode_counted take_counted
rpc_decode_string-read = refl

rpc_decode_string_bounds_example :
    (byte_at some_message 5 ≡ arg_string) × IsSlice some_message 5 max_string_len 12 (72 ∷ 105 ∷ [])
rpc_decode_string_bounds_example =
    rpc_decode_string_bounds some_message (72 ∷ 105 ∷ []) 5 12
      (record { inside = omega arith; small = omega arith }) rpc_decode_string-read

skip_no_progress_example : rpc_decode_skip (arg_string ∷ be32 4_294_967_291) 0 ≡ (some tt, 0)
skip_no_progress_example =
    skip_no_progress (arg_string ∷ be32 4_294_967_291) 0 (inl refl) (omega arith) (omega arith) refl

ensure_endless_example : ensure_within 1_000_000 rpc_buf_init 3_000_000_000 ≡ none
ensure_endless_example = ensure_endless 1_000_000 3_000_000_000 (omega arith) (omega arith)

-- A message cut behind its first byte.
abbrev cut_message : List Arrival
cut_message = bytes 0 [] ∷ eintr ∷ bytes 0 (drop 2 (msg_bytes 3 (7 ∷ 8 ∷ [])) ++ (6 ∷ [])) ∷ []

read_msg_receives_example :
    ((rpc_read_msg cut_message).0 ≡ some (record { msg_type = 3; payload = 7 ∷ 8 ∷ [] }))
    × (stream (rpc_read_msg cut_message).1 ≡ 6 ∷ [])
read_msg_receives_example = read_msg_receives cut_message 3 (7 ∷ 8 ∷ []) (6 ∷ []) refl (omega arith)
