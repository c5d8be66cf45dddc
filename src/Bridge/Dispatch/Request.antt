-- ===== src/Bridge/Dispatch/Request.antt =====
-- What `dispatch_rpc` does with a request that begins with a header, and with one that does not.
use eloquence.Base.{ℕ, ◌+◌, ◌<◌, ◌≡◌, none, some, List, ◌++◌, arith, length, gt→leb}
use eloquence.Wire.Function.{Function, fn_id, function_of_id}
use eloquence.Wire.Function.Numbers.{function_of_id-fn_id}
use eloquence.Wire.Header.{request_header_bytes, rpc_decode_request_header}
use eloquence.Wire.Header.RoundTrip.{decode_request_header_lem}
use eloquence.Wire.Decode.Position.{At-start}
use eloquence.Wire.Decode.{check_remaining}
use eloquence.Bridge.Engine.{Outside}
use eloquence.Bridge.Client.{Client}
use eloquence.Bridge.Dispatch.{dispatch_rpc, replied, switch, serve, handler, response_bytes}

abbrev pub request_bytes : ℕ → ℕ → List ℕ → List ℕ
request_bytes seq func_id args = request_header_bytes seq func_id ++ args

module _ {E : Type 0} (o : Outside E) where
  -- A request that begins with a header gets exactly one response, with the request's own sequence number,
  -- of the function that the header names.
  pub dispatch_rpc-request :
      (seq func_id : ℕ) (args : List ℕ) (c : Client) (e : E)
      → length args + 6 < 4_294_967_296
      → let buf = request_bytes seq func_id args in
        let r = switch o (function_of_id func_id) buf 6 c e in
        dispatch_rpc o buf c e ≡ (some (response_bytes seq r.0), r.1, r.2)
  unfolding dispatch_rpc replied
  dispatch_rpc-request seq func_id args c e h =
      let at = At-start (request_bytes seq func_id args) (omega (arith, h)) in
      rw (decode_request_header_lem (request_bytes seq func_id args) args 0 seq func_id at)

  -- A request of less than 2 ^ 32 bytes for a function that the protocol knows is served by the case of
  -- that function alone, and gets exactly one response, with the request's own sequence number.
  pub dispatch_rpc-fn_id :
      (fn : Function) (seq : ℕ) (args : List ℕ) (c : Client) (e : E)
      → length args + 6 < 4_294_967_296
      → let buf = request_bytes seq (fn_id fn) args in
        let r = serve o (handler o fn) buf 6 c e in
        dispatch_rpc o buf c e ≡ (some (response_bytes seq r.0), r.1, r.2)
  unfolding switch
  dispatch_rpc-fn_id fn seq args c e h =
      rw (dispatch_rpc-request seq (fn_id fn) args c e h, function_of_id-fn_id fn)

  -- A payload that is too short for a header gets no response, which ends the connection, and changes
  -- nothing.
  pub dispatch_rpc-short :
      (buf : List ℕ) (c : Client) (e : E) → length buf < 6 → dispatch_rpc o buf c e ≡ (none, c, e)
  unfolding dispatch_rpc replied rpc_decode_request_header check_remaining
  dispatch_rpc-short buf c e h = rw (gt→leb 6 (length buf) h)
