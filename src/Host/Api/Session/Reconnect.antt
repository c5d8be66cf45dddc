-- ===== src/Host/Api/Session/Reconnect.antt =====
-- A session that begins without a connection: the first call makes one, by `shim_get_conn` of
-- host/shim_connection.c.
use eloquence.Base.{
  ℕ, ◌≡◌, refl, ◌∙◌, sym, ap, ap₂, true, false, Bool, All, Option, none, some, List, ◌∷◌, ◌++◌,
  if◌then◌else◌,
}
use eloquence.Wire.Buffer.{Buf}
use eloquence.Wire.Function.{Function}
use eloquence.Bridge.Engine.{Outside}
use eloquence.Bridge.Client.{new_client}
use eloquence.Bridge.Server.{Server, attach}
use eloquence.Bridge.Callback.{Channel}
use eloquence.Host.Connection.{
  Conn, Attempt, rpc_opened, cb_opened, attempt, attempted, shim_connect, shim_get_conn,
}
use eloquence.Host.Connection.Handshake.{Joined}
use eloquence.Host.Api.{Call, function, arguments, args_buf}
use eloquence.Host.Api.Perform.{perform, perform_lem}
use eloquence.Host.Api.Remote.{ask, sent_with, do_rpc, with_answer, value_of}
use eloquence.Host.Api.Refinement.{get_conn-connected}
use eloquence.Host.Api.Session.{
  perform_all, go_on, engine_calls, dispatch_all, Fits, perform_all-engine_calls,
}

if_false {ℓ} : {A : Type ℓ} (b : Bool) (x y : A) → b ≡ false → (if b then x else y) ≡ y
if_false b x y e = rw e

-- A call over a connection is one over what `shim_get_conn` makes of it, if that is open.
sent_with-get_conn :
    (b : Option Buf) (fn : Function) (junk : ℕ) (conn : Conn)
    → (shim_get_conn conn).connected ≡ true
    → sent_with b fn junk conn ≡ sent_with b fn junk (shim_get_conn conn)
unfolding sent_with do_rpc
sent_with-get_conn none fn junk conn up = refl
sent_with-get_conn (some b) fn junk conn up = rw (get_conn-connected (shim_get_conn conn) up)

perform-get_conn :
    (call : Call) (junk : ℕ) (conn : Conn)
    → (shim_get_conn conn).connected ≡ true
    → perform call junk conn ≡ perform call junk (shim_get_conn conn)
unfolding value_of ask
perform-get_conn call junk conn up =
    perform_lem call junk conn
    ∙ ap (with_answer (λ a. a.rv))
        (sent_with-get_conn (args_buf (arguments call)) (function call) junk conn up)
    ∙ sym (perform_lem call junk (shim_get_conn conn))

perform_all-get_conn :
    (call : Call) (calls : List Call) (junk : ℕ) (conn : Conn)
    → (shim_get_conn conn).connected ≡ true
    → perform_all (call ∷ calls) junk conn ≡ perform_all (call ∷ calls) junk (shim_get_conn conn)
unfolding perform_all
perform_all-get_conn call calls junk conn up =
    ap (go_on (perform_all calls junk)) (perform-get_conn call junk conn up)

attempt-shim_connect :
    (a : Attempt) (conn : Conn) (rpc cb : Option Channel)
    → a.launched ≡ true
    → rpc_opened a ≡ rpc
    → cb_opened a ≡ cb
    → attempt a conn ≡ shim_connect conn true rpc cb
unfolding attempt
attempt-shim_connect a conn rpc cb starts rpc_opens cb_opens =
    ap (λ l. shim_connect conn l (rpc_opened a) (cb_opened a)) starts
    ∙ ap₂ (shim_connect conn true) rpc_opens cb_opens

module _ {E : Type 0} (o : Outside E) where
  open o use {funcs as f}

  -- Without a connection, where the next attempt to connect finds or starts the bridge, opens both channels, and
  -- joins the server as a client: the first call connects, and the calls hand back the values of the engine's
  -- own functions, on the client as it is new, if behind the handshake the bridge's responses to their requests
  -- arrive, in whatever pieces. Writing does not fail, texts have at most 64 KiB, and a request at most 4 MiB.
  pub perform_all-connects :
      (call : Call) (calls : List Call) (junk : ℕ) (conn : Conn) (rpc cb : Channel) (a : Attempt)
      (rest : List Attempt) (rpc_fd cb_fd id : ℕ) (more_rpc more_cb more : List ℕ) (t : Server E)
      → conn.connected ≡ false
      → conn.attempts ≡ a ∷ rest
      → a.launched ≡ true
      → rpc_opened a ≡ some rpc
      → cb_opened a ≡ some cb
      → Joined o (record conn { attempts = rest }) rpc cb rpc_fd cb_fd id more_rpc more_cb t
      → All Fits (call ∷ calls)
      → more_rpc
        ≡ (dispatch_all o 1 (call ∷ calls) (attach cb_fd (new_client rpc_fd id)) t.engine).0 ++ more
      → (conn' : Conn) × (conn'.connected ≡ true)
        × (perform_all (call ∷ calls) junk conn
            ≡ some (
              (engine_calls f (call ∷ calls) (attach cb_fd (new_client rpc_fd id)) t.engine).0,
              conn',
            ))
  unfolding shim_get_conn attempted
  perform_all-connects call calls junk conn rpc cb a rest rpc_fd cb_fd id more_rpc more_cb more t
        down next starts rpc_opens cb_opens j k arrives =
      let made : shim_get_conn conn ≡ j.conn' =
        if_false conn.connected conn (attempted conn.attempts conn) down
        ∙ ap (λ as_. attempted as_ conn) next
        ∙ ap (λ r. r.1) (attempt-shim_connect a _ _ _ starts rpc_opens cb_opens ∙ j.result) in
      let c = attach cb_fd (new_client rpc_fd id) in
      let s =
        perform_all-engine_calls o (call ∷ calls) more junk j.conn' j.rpc' c t.engine k j.connected
          j.rpc_channel j.on_rpc.willing
          (j.on_rpc.left
            ∙ arrives
            ∙ ap (λ n. (dispatch_all o n (call ∷ calls) c t.engine).0 ++ more) (sym j.next_seq)) in
      (
        s.conn',
        s.open_,
        perform_all-get_conn call calls junk conn (rw made j.connected) ∙ rw made s.values,
      )
