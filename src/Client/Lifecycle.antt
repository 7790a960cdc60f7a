-- ===== src/Client/Lifecycle.antt =====
-- The transitions between the states of the client.
mod Ending
use lightmqtt.Prelude.{
  ◌||◌, ltb, ℕ, ◌≡◌, refl, subst, ap, arith, Bool, true, false, not, ◌&&◌, Option, none, some,
  Option-cases, Bool-cases, inl, inr,
}
use lightmqtt.Core.{Error}
use lightmqtt.Store.{on_connack}
use lightmqtt.Tx.Weights.{bind_some}
use lightmqtt.Store.{StoreTimeout}
use lightmqtt.Store.Defs.{is_zero}
use lightmqtt.Core.{timeout, closed}
use lightmqtt.Rx.State.{Rx}
use lightmqtt.Rx.Finish.{rx_buffer_finish, rx_buffer_call_callback}
use lightmqtt.Client.State.{
  copy_in, copy_out, status_error, status_ready, Internal, set_store_of, IoStatus, main, connect,
  Session, Client, Reach, session, reach, set_reach, session_of, set_session_of,
}
use lightmqtt.Client.Requests.{client_cleanup_stores, client_call}
use lightmqtt.Client.Commands.{
  call_depth, client_set_state_initial, client_set_state_failed, client_connect, client_subscribe,
  client_unsubscribe, client_publish, client_pingreq, client_disconnect,
}
use lightmqtt.Encode.{◌>>=◌}
use lightmqtt.Client.Setup.{
  is_closed, stored_calls, client_reset, client_finalize, client_get_timeout,
}
use lightmqtt.Client.Exec.{client_keep_alive}
use lightmqtt.Client.Phases.Running.{call-Keeps-IsRunning, on_connack_connects}
use lightmqtt.Client.Phases.{
  Phase, initial, connecting, connected, failed, IsIn, IsControl, shut-Keeps, cleanup_keeps_control,
}
use lightmqtt.Client.Effects.{
  initial_reached, failed_reached, Requests, Requests-keep, subscribe-Requests,
  unsubscribe-Requests, publish-Requests, disconnect-Requests, pingreq-Requests, connect_leads,
}
use lightmqtt.Client.Lifecycle.Ending.{with_error, failed-IsControl, finalize_reached}

-- The states that follow one another.
abbrev pub follows : Phase → Phase → Bool
follows initial connected = false
follows connecting connecting = true
follows connected connecting = false
follows failed connecting = false
follows failed connected = false
follows _ _ = true

-- No timer, or time left.
abbrev pub is_quiet : StoreTimeout → Bool
is_quiet t = not t.armed || not (is_zero t.secs) || not (is_zero t.nsecs)

module _ {U : Type 0} where
  -- What can happen to the client: the commands of the application, the answer to its CONNECT, the
  -- end of the connection and the errors of the two buffers, of the connection and of the timer.
  pub data Step : Client U → Client U → Type 0 where
    connects :
        (c c' : Client U) (at : ℕ) (ok : Bool) → client_connect c at ≡ some (ok, c') → Step c c'
    subscribes :
        (c c' : Client U) (at : ℕ) (ok : Bool) → client_subscribe c at ≡ some (ok, c') → Step c c'
    unsubscribes :
        (c c' : Client U) (at : ℕ) (ok : Bool) → client_unsubscribe c at ≡ some (ok, c') → Step c c'
    publishes :
        (c c' : Client U) (at : ℕ) (ok : Bool) → client_publish c at ≡ some (ok, c') → Step c c'
    disconnects : (c c' : Client U) (ok : Bool) → client_disconnect c ≡ some (ok, c') → Step c c'
    answered :
        (c : Client U) (v : Option ℕ) (ok : Bool) (r : Reach U)
        → client_call call_depth on_connack v (reach c) ≡ some (ok, r)
        → Step c (set_reach c r)
    keeps_alive :
        (c c' : Client U) (status : IoStatus) → client_keep_alive c ≡ some (status, c') → Step c c'
    closes :
        (c c' : Client U)
        → (session_of c).error ≡ none
        → client_set_state_initial c ≡ some c'
        → Step c c'
    breaks :
        (c c' : Client U) (error : Error)
        → client_set_state_failed (with_error c error) ≡ some c'
        → Step c c'
    resets : (c c' : Client U) → client_reset c ≡ some c' → Step c c'
    finalizes : (c c' : Client U) → client_finalize c ≡ some c' → Step c c'

  abbrev pub Leads : Phase → Client U → Type 0
  Leads phase c' = (next : Phase) × (follows phase next ≡ true) × IsIn next (session_of c')

  stays : (phase : Phase) (c' : Client U) → IsIn phase (session_of c') → Leads phase c'
  stays initial c' p = (initial, refl, p)
  stays connecting c' p = (connecting, refl, p)
  stays connected c' p = (connected, refl, p)
  stays failed c' p = (failed, refl, p)

  fails : (phase : Phase) (c' : Client U) → IsIn failed (session_of c') → Leads phase c'
  fails initial c' p = (failed, refl, p)
  fails connecting c' p = (failed, refl, p)
  fails connected c' p = (failed, refl, p)
  fails failed c' p = (failed, refl, p)

  begins : (phase : Phase) (c' : Client U) → IsIn initial (session_of c') → Leads phase c'
  begins initial c' p = (initial, refl, p)
  begins connecting c' p = (initial, refl, p)
  begins connected c' p = (initial, refl, p)
  begins failed c' p = (initial, refl, p)

  requests_lead :
      (phase : Phase) (c c' : Client U) → IsIn phase (session_of c) → Requests c c' → Leads phase c'
  requests_lead phase c c' p r = stays phase c' (Requests-keep phase c c' r p)

  initial-IsControl : IsControl {U = U} (IsIn initial)
  initial-IsControl = record {
    stores = λ name s store p. elim name as (λ k. IsIn initial (set_store_of s k store)) [
      | main ↦ p
      | connect ↦ p
    ];
    world = λ s u p. p;
  }

  answer_leads :
      (phase : Phase) (c : Client U) (v : Option ℕ) (ok : Bool) (r : Reach U)
      → IsIn phase (session_of c)
      → client_call call_depth on_connack v (reach c) ≡ some (ok, r)
      → Leads phase (set_reach c r)
  unfolding client_call
  answer_leads initial c v ok r p e = (
    initial,
    refl,
    shut-Keeps (IsIn initial) initial-IsControl (λ s q. q.0) call_depth on_connack v (reach c) ok r
        p e,
  )
  answer_leads failed c v ok r p e = (
    failed,
    refl,
    shut-Keeps (IsIn failed) failed-IsControl (λ s q. q.0) call_depth on_connack v (reach c) ok r p
        e,
  )
  answer_leads connecting c v ok r (running, _, _, pointers) e = (
    connected,
    refl,
    on_connack_connects (client_call 1) v (reach c) r ok (call-Keeps-IsRunning 1) running
        (ap (λ (x : Internal). x.connect) pointers) e,
  )
  answer_leads connected c v ok r (running, _, _, pointers) e = (
    connected,
    refl,
    on_connack_connects (client_call 1) v (reach c) r ok (call-Keeps-IsRunning 1) running
        (ap (λ (x : Internal). x.connect) pointers) e,
  )

  pub asked-Requests : (c : Client U) → Requests c (client_get_timeout c).1
  unfolding client_get_timeout
  asked-Requests c = (ground arith, ground arith, ground arith, ground arith)

  -- The timer has run out.
  expired_leads :
      (phase : Phase) (c c' : Client U) (status : IoStatus)
      → IsIn phase (session_of c)
      → (session_of c).error ≡ none
      → is_quiet (client_get_timeout c).0 ≡ false
      → client_keep_alive c ≡ some (status, c')
      → Leads phase c'
  unfolding client_keep_alive
  expired_leads phase c c' status p fine expired e =
      let (t, asked) = client_get_timeout c in
      elim (Bool-cases (ltb 0 t.count)) [
        | inl waits ↦
            let (c1, failing, rest) =
              bind_some {A = Client U} {B = IoStatus × Client U}
                (client_set_state_failed (with_error asked timeout)) (λ k. some (status_error, k))
                {b = (status, c')} (ground (arith, e, fine, expired, waits)) in
            let same : c1 ≡ c' = ground (arith, rest) in
            subst (λ k. Leads phase k) {x = c1} same
              (fails phase c1 (failed_reached (with_error asked timeout) c1 failing))
        | inr nothing_waits ↦
            let ((ok, c1), pings, rest) =
              bind_some {A = Bool × Client U} {B = IoStatus × Client U} (client_pingreq asked)
                (λ (ok, k). some (status_ready, k)) {b = (status, c')}
                (ground (arith, e, fine, expired, nothing_waits)) in
            let same : c1 ≡ c' = ground (arith, rest) in
            subst (λ k. Leads phase k) {x = c1} same
              (requests_lead phase asked c1 (Requests-keep phase c asked (asked-Requests c) p)
                (pingreq-Requests asked c1 ok pings))
      ]

  keep_alive_leads :
      (phase : Phase) (c c' : Client U) (status : IoStatus)
      → IsIn phase (session_of c)
      → client_keep_alive c ≡ some (status, c')
      → Leads phase c'
  unfolding client_keep_alive
  keep_alive_leads phase c c' status p e = elim (Option-cases (session_of c).error) [
    | inr (error, has) ↦
        let same : c ≡ c' = ground (arith, e, has) in
        subst (λ k. Leads phase k) same (stays phase c p)
    | inl fine ↦ elim (Bool-cases (is_quiet (client_get_timeout c).0)) [
      | inl quiet ↦
          let same : (client_get_timeout c).1 ≡ c' = ground (arith, e, fine, quiet) in
          subst (λ k. Leads phase k) same
            (requests_lead phase c (client_get_timeout c).1 p (asked-Requests c))
      | inr expired ↦ expired_leads phase c c' status p fine expired e
    ]
  ]

  reset_leads :
      (phase : Phase) (c c' : Client U)
      → IsIn phase (session_of c)
      → client_reset c ≡ some c'
      → Leads phase c'
  unfolding client_reset
  reset_leads phase c c' p e =
      elim (Bool-cases ((session_of c).closed && not (is_closed (session_of c).error))) [
        | inl again ↦ begins phase c' (initial_reached c c' (ground (arith, e, again)))
        | inr not_now ↦
            let same : c ≡ c' = ground (arith, e, not_now) in
            subst (λ k. Leads phase k) same (stays phase c p)
      ]

  -- Every step of a client in one of the four states leads to a client in one of them, and never from
  -- the initial state to the connected one, from the connected or the failed state to connecting, nor
  -- from the failed state to the connected one. The steps are the commands of the application, the
  -- callback of a CONNECT, the keep-alive, the end of a connection without or with an error, the reset
  -- and the finalization.
  pub step_leads :
      (phase : Phase) (c c' : Client U) → IsIn phase (session_of c) → Step c c' → Leads phase c'
  step_leads phase c c' p (connects _ _ at ok e) = elim (connect_leads phase c c' at ok p e) [
    | inl (same, _) ↦ stays phase c' same
    | inr (next, _, first) ↦ (connecting, ap (λ x. follows x connecting) first, next)
  ]
  step_leads phase c c' p (subscribes _ _ at ok e) =
      requests_lead phase c c' p (subscribe-Requests c c' at ok e)
  step_leads phase c c' p (unsubscribes _ _ at ok e) =
      requests_lead phase c c' p (unsubscribe-Requests c c' at ok e)
  step_leads phase c c' p (publishes _ _ at ok e) =
      requests_lead phase c c' p (publish-Requests c c' at ok e)
  step_leads phase c c' p (disconnects _ _ ok e) =
      requests_lead phase c c' p (disconnect-Requests c c' ok e)
  step_leads phase c c' p (answered _ v ok r e) = answer_leads phase c v ok r p e
  step_leads phase c c' p (keeps_alive _ _ status e) = keep_alive_leads phase c c' status p e
  step_leads phase c c' p (closes _ _ fine e) = begins phase c' (initial_reached c c' e)
  step_leads phase c c' p (breaks _ _ error e) =
      fails phase c' (failed_reached (with_error c error) c' e)
  step_leads phase c c' p (resets _ _ e) = reset_leads phase c c' p e
  step_leads phase c c' p (finalizes _ _ e) = fails phase c' (finalize_reached c c' e)
