-- ===== src/Host/Api/Session.antt =====
-- A session of the application, host/shim_libeci.c, with the bridge, arm/bridge_dispatch.c: many calls, one
-- behind the other, over one connection.
pub mod Reconnect
use eloquence.Base.{
  ℕ, ◌+◌, ◌<◌, ◌≡◌, refl, ◌∙◌, sym, subst, ap, true, All, Option, none, some, List, [], ◌∷◌, ◌++◌,
  append_assoc, append-nil, arith, length, add32,
}
use eloquence.Wire.Function.{fn_id, max_msg_size, msg_rpc_request, msg_rpc_response}
use eloquence.Wire.Decode.RoundTrip.{IsDecodable, args_bytes}
use eloquence.Frame.Exact.{stream, NoRefusal}
use eloquence.Frame.RoundTrip.{msg_bytes}
use eloquence.Bridge.Engine.{EciFuncs, Outside}
use eloquence.Bridge.Client.{Client}
use eloquence.Bridge.Callback.{Channel}
use eloquence.Bridge.Reply.{answer}
use eloquence.Bridge.Dispatch.{dispatch_rpc, response_bytes}
use eloquence.Bridge.Dispatch.Request.{request_bytes, dispatch_rpc-fn_id}
use eloquence.Host.Connection.{Conn}
use eloquence.Host.Api.{Call, function, arguments}
use eloquence.Host.Api.Perform.{perform, perform_lem}
use eloquence.Host.Api.Remote.{value_of}
use eloquence.Host.Api.Served.{engine_call}
use eloquence.Host.Api.Refinement.{serve-engine_call, ask-Asked}

-- The calls in their order: their values, and the connection behind the last.
abbrev pub value_before : ℕ → Option (List ℕ × Conn) → Option (List ℕ × Conn)
value_before v none = none
value_before v (some (vs, conn)) = some (v ∷ vs, conn)

abbrev pub go_on : (Conn → Option (List ℕ × Conn)) → Option (ℕ × Conn) → Option (List ℕ × Conn)
go_on rest none = none
go_on rest (some (v, conn)) = value_before v (rest conn)

unfoldable pub perform_all : List Call → ℕ → Conn → Option (List ℕ × Conn)
perform_all [] junk conn = some ([], conn)
perform_all (call ∷ calls) junk conn = go_on (perform_all calls junk) (perform call junk conn)

-- The engine's own functions in the same order: their values, and the engine's state.
unfoldable pub engine_calls : {E : Type 0} → EciFuncs E → List Call → Client → E → List ℕ × E
engine_calls f [] c e = ([], e)
engine_calls f (call ∷ calls) c e =
    let r = engine_call f call c e in
    let rest = engine_calls f calls c r.1 in (r.0 ∷ rest.0, rest.1)

-- The request for a call under a sequence number.
abbrev pub request_of : ℕ → Call → List ℕ
request_of seq call = request_bytes seq (fn_id (function call)) (args_bytes (arguments call))

unfoldable pub requests : ℕ → List Call → List ℕ
requests seq [] = []
requests seq (call ∷ calls) =
    msg_bytes msg_rpc_request (request_of seq call) ++ requests (add32 seq 1) calls

abbrev pub Fits : Call → Type 0
Fits call =
    All IsDecodable (arguments call) × (length (args_bytes (arguments call)) + 6 < max_msg_size)

module _ {E : Type 0} (o : Outside E) where
  open o use {funcs as f}

  -- What the bridge's loop sends for the requests, one response for each, and what it leaves.
  abbrev pub sent_of : Option (List ℕ) → List ℕ
  sent_of none = []
  sent_of (some bytes) = msg_bytes msg_rpc_response bytes

  unfoldable pub dispatch_all : ℕ → List Call → Client → E → List ℕ × Client × E
  dispatch_all seq [] c e = ([], c, e)
  dispatch_all seq (call ∷ calls) c e =
      let r = dispatch_rpc o (request_of seq call) c e in
      let rest = dispatch_all (add32 seq 1) calls r.1 r.2 in (sent_of r.0 ++ rest.0, rest.1, rest.2)

  -- What a session comes to.
  pub record Session (calls : List Call) (more : List ℕ) (junk : ℕ) (conn : Conn) (ch : Channel)
      (seq : ℕ) (c : Client) (e : E) : Type 0 where
    pub conn' : Conn
    pub ch' : Channel
    pub values : perform_all calls junk conn ≡ some ((engine_calls f calls c e).0, conn')
    pub open_ : conn'.connected ≡ true
    pub rpc : conn'.rpc ≡ some ch'
    pub asked : ch'.output.sent ≡ ch.output.sent ++ requests seq calls
    pub left : stream ch'.input ≡ more
    pub same_client : (dispatch_all seq calls c e).1 ≡ c
    pub engine : (dispatch_all seq calls c e).2 ≡ (engine_calls f calls c e).1

  -- The bridge's turn for the request of a call.
  dispatch_rpc-engine_call :
      (call : Call) (seq : ℕ) (c : Client) (e : E)
      → Fits call
      → dispatch_rpc o (request_of seq call) c e ≡ (
        some (response_bytes seq (answer (engine_call f call c e).0)),
        c,
        (engine_call f call c e).1,
      )
  dispatch_rpc-engine_call call seq c e (k, small) =
      let turn =
        dispatch_rpc-fn_id o (function call) seq (args_bytes (arguments call)) c e (omega arith) in
      let same = serve-engine_call o call seq c e k (omega arith) in rw (turn, same)

  -- Any sequence of calls of the 34 functions whose whole result is a value, on an open connection, hands back the
  -- values of the engine's own functions in the same order, each on the state that the last one left, where the
  -- texts have at most 64 KiB, each request has at most 4 MiB, writing does not fail, and the bridge's responses
  -- to the requests arrive, in whatever pieces. The host has sent exactly the requests that the bridge has
  -- served; the bridge's client is as before and its engine as the calls leave it; the connection is open, and
  -- what follows the responses is left on it.
  pub perform_all-engine_calls :
      (calls : List Call) (more : List ℕ) (junk : ℕ) (conn : Conn) (ch : Channel) (c : Client)
      (e : E)
      → All Fits calls
      → conn.connected ≡ true
      → conn.rpc ≡ some ch
      → NoRefusal ch.output.uptakes
      → stream ch.input ≡ (dispatch_all conn.next_seq calls c e).0 ++ more
      → Session calls more junk conn ch conn.next_seq c e
  unfolding perform_all engine_calls requests dispatch_all value_of
  perform_all-engine_calls [] more junk conn ch c e k up here willing arrives = record {
    conn' = conn;
    ch' = ch;
    values = refl;
    open_ = up;
    rpc = here;
    asked = sym (append-nil ch.output.sent);
    left = arrives;
    same_client = refl;
    engine = refl;
  }
  perform_all-engine_calls (call ∷ calls) more junk conn ch c e (k, ks) up here willing arrives =
      let seq = conn.next_seq in
      let e' : E = (engine_call f call c e).1 in
      let v : ℕ = (engine_call f call c e).0 in
      let later = (dispatch_all (add32 seq 1) calls c e').0 ++ more in
      let turn = dispatch_rpc-engine_call call seq c e k in
      let arrives' : stream ch.input
          ≡ msg_bytes msg_rpc_response (response_bytes seq (answer v)) ++ later =
        (rw turn at arrives)
        ∙ append_assoc (msg_bytes msg_rpc_response (response_bytes seq (answer v)))
            (dispatch_all (add32 seq 1) calls c e').0 more in
      let first =
        ask-Asked o (function call) (arguments call) later junk conn ch c e
          (response_bytes seq (answer v)) up here willing k.1 (ap (λ r. r.0) turn) (omega arith)
          arrives' in
      let called = first.called in
      let rest =
        subst (λ s. Session calls more junk called.conn' called.ch' s c e') called.next_seq
          (perform_all-engine_calls calls more junk called.conn' called.ch' c e' ks called.open_
            called.rpc called.willing
            (subst (λ s. stream called.ch'.input ≡ (dispatch_all s calls c e').0 ++ more)
              (sym called.next_seq) called.left)) in
      let same = serve-engine_call o call seq c e k.0 (omega (arith, k.1)) in
      record {
        conn' = rest.conn';
        ch' = rest.ch';
        values = rw (perform_lem call junk conn, first.result, same, rest.values) refl;
        open_ = rest.open_;
        rpc = rest.rpc;
        asked =
            rest.asked
            ∙ ap (λ s. s ++ requests (add32 seq 1) calls) called.sent
            ∙ append_assoc ch.output.sent (msg_bytes msg_rpc_request (request_of seq call))
                (requests (add32 seq 1) calls);
        left = rest.left;
        same_client = rw turn rest.same_client;
        engine = rw turn rest.engine;
      }
