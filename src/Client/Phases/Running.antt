-- ===== src/Client/Phases/Running.antt =====
-- What the callbacks of requests leave of a connected client, and a CONNACK makes of one that connects.
use lightmqtt.Prelude.{ℕ, zero, suc, ◌≡◌, refl, arith, Bool, true, false, not, Option, none, some}
use lightmqtt.Encode.{◌>>=◌}
use lightmqtt.Store.{on_connack, on_suback, on_unsuback, on_publish, on_pingresp}
use lightmqtt.Tx.Weights.{bind_some}
use lightmqtt.Tx.Parts.{as_connect, load}
use lightmqtt.Client.State.{
  main, connect, refusing, Session, Reach, session, set_session, set_store_of,
}
use lightmqtt.Client.Requests.{
  Call, call_event, client_cleanup_stores, client_set_current_store, client_set_state_connected,
  client_on_connack, client_call,
}
use lightmqtt.Client.Phases.{
  event_keeps, returns, connected, IsIn, Keeps, IsControl, cleanup_keeps_control, leaf_keeps,
}

-- What a session that is running has in common, before and behind its CONNACK.
abbrev pub IsRunning : {U : Type 0} → Session U → Type 0
IsRunning s =
    (s.closed ≡ false)
    × (s.error ≡ none)
    × (s.current_store ≡ main)
    × (s.internal.connect ≡ refusing)

IsRunning-IsControl : {U : Type 0} → IsControl {U = U} IsRunning
IsRunning-IsControl = record {
  stores = λ name s store p. elim name as (λ k. IsRunning (set_store_of s k store)) [
    | main ↦ p
    | connect ↦ p
  ];
  world = λ s u p. p;
}

module _ {U : Type 0} where
  connected_running :
      (call : Call U) (r r' : Reach U)
      → Keeps IsRunning call
      → (session r).internal.connect ≡ refusing
      → client_set_state_connected call r ≡ some r'
      → IsIn connected (session r')
  unfolding client_set_state_connected client_set_current_store
  connected_running call r r' keeps refuses e =
      let s : Session U = record (session r) {
        error = none;
        os_error = 0;
        closed = false;
        current_store = main;
      } in
      let (next, cleaned, rest) =
        bind_some (client_cleanup_stores call (not s.clean_session) (set_session r s)) _ e in
      let run =
        cleanup_keeps_control IsRunning IsRunning-IsControl call keeps (not s.clean_session)
          (set_session r s) next (refl, refl, refl, refuses) cleaned in
      ground (arith, rest, run)

  connected-IsControl : IsControl {U = U} (IsIn connected)
  connected-IsControl = record {
    stores = λ name s store p. elim name as (λ k. IsIn connected (set_store_of s k store)) [
      | main ↦ p
      | connect ↦ p
    ];
    world = λ s u p. p;
  }

  open_branch :
      (call : Call U) (v : Option ℕ) (r r' : Reach U) (ok : Bool)
      → (session r).closed ≡ false
      → client_on_connack call v r ≡ some (ok, r')
      → (load as_connect r.heap v >>= λ (at, c).
          client_set_state_connected call (
            set_session r (record (session r) {
              clean_session = c.clean_session;
              main_store = record (session r).main_store { keep_alive = c.keep_alive };
            }))
          >>= λ next. some (call_event (session next).on_connect v true next))
        ≡ some (ok, r')
  unfolding client_on_connack
  open_branch call v r r' ok running e = ground (arith, running, e)

  -- A CONNACK for a client that is not closed.
  pub on_connack_connects :
      (call : Call U) (v : Option ℕ) (r r' : Reach U) (ok : Bool)
      → Keeps IsRunning call
      → (session r).closed ≡ false
      → (session r).internal.connect ≡ refusing
      → client_on_connack call v r ≡ some (ok, r')
      → IsIn connected (session r')
  unfolding client_on_connack
  on_connack_connects call v r r' ok keeps running refuses e =
      let ((at, c), stands, more) =
        bind_some (load as_connect r.heap v) _ (open_branch call v r r' ok running e) in
      let started : Reach U = set_session r (record (session r) {
        clean_session = c.clean_session;
        main_store = record (session r).main_store { keep_alive = c.keep_alive };
      }) in
      let (next, connects, rest) = bind_some (client_set_state_connected call started) _ more in
      returns (IsIn connected) connected-IsControl
        (call_event (session next).on_connect v true next) ok r' rest
        (event_keeps (IsIn connected) connected-IsControl (session next).on_connect v true next
          (connected_running call started next keeps refuses connects))

  pub call-Keeps-IsRunning : (depth : ℕ) → Keeps IsRunning (client_call {U = U} depth)
  unfolding client_call
  call-Keeps-IsRunning zero on_connack v r ok r' p e = absurd (ground (arith, e, p))
  call-Keeps-IsRunning (suc depth) on_connack v r ok r' (running, fine, here, refuses) e =
      let (a, b, c, d) =
        on_connack_connects (client_call depth) v r r' ok (call-Keeps-IsRunning depth) running
          refuses e in
      (a, b, c, ground (arith, d))
  call-Keeps-IsRunning depth on_suback v r ok r' p e =
      leaf_keeps IsRunning IsRunning-IsControl depth on_suback v r ok r'
        (λ c. absurd (ground (arith, c))) p e
  call-Keeps-IsRunning depth on_unsuback v r ok r' p e =
      leaf_keeps IsRunning IsRunning-IsControl depth on_unsuback v r ok r'
        (λ c. absurd (ground (arith, c))) p e
  call-Keeps-IsRunning depth on_publish v r ok r' p e =
      leaf_keeps IsRunning IsRunning-IsControl depth on_publish v r ok r'
        (λ c. absurd (ground (arith, c))) p e
  call-Keeps-IsRunning depth on_pingresp v r ok r' p e =
      leaf_keeps IsRunning IsRunning-IsControl depth on_pingresp v r ok r'
        (λ c. absurd (ground (arith, c))) p e
