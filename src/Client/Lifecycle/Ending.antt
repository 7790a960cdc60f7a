-- ===== src/Client/Lifecycle/Ending.antt =====
-- `lmqtt_client_finalize` leaves a failed client.
use lightmqtt.Prelude.{◌≡◌, subst, arith, false, Option, some, Option-cases, inl, inr}
use lightmqtt.Core.{Error}
use lightmqtt.Tx.Weights.{bind_some}
use lightmqtt.Core.{closed}
use lightmqtt.Rx.State.{Rx}
use lightmqtt.Rx.Finish.{rx_buffer_finish, rx_buffer_call_callback}
use lightmqtt.Client.State.{
  copy_in, copy_out, set_store_of, main, connect, Session, Client, Reach, session, reach,
  session_of, set_session_of,
}
use lightmqtt.Client.Requests.{client_cleanup_stores, client_call}
use lightmqtt.Client.Commands.{call_depth, client_set_state_failed}
use lightmqtt.Encode.{◌>>=◌}
use lightmqtt.Client.Setup.{stored_calls, client_finalize}
use lightmqtt.Client.Phases.{failed, IsIn, IsControl, shut-Keeps, cleanup_keeps_control}
use lightmqtt.Client.Effects.{failed_reached}

module _ {U : Type 0} where
  -- A connection ends, with an error or without.
  abbrev pub with_error : Client U → Error → Client U
  with_error c error = set_session_of c (record (session_of c) { error = some error; os_error = 0 })

  pub failed-IsControl : IsControl {U = U} (IsIn failed)
  failed-IsControl = record {
    stores = λ name s store p. elim name as (λ k. IsIn failed (set_store_of s k store)) [
      | main ↦ p
      | connect ↦ p
    ];
    world = λ s u p. p;
  }

  finish_keeps :
      (rx : Rx (Session U))
      → IsIn failed (session rx.shared)
      → IsIn failed (session (rx_buffer_finish stored_calls rx).shared)
  unfolding rx_buffer_finish rx_buffer_call_callback
  finish_keeps rx p = elim (Option-cases rx.value.callback) [
    | inl no_callback ↦ ground (arith, no_callback, p)
    | inr (f, has) ↦
        elim (Option-cases (client_call call_depth f rx.value.value (copy_out rx.shared))) [
          | inl broke ↦ ground (arith, has, broke, p)
          | inr ((ok, r), called) ↦
              let kept =
                shut-Keeps (IsIn failed) failed-IsControl (λ s q. q.0) call_depth f rx.value.value
                  (copy_out rx.shared) ok r
                  (failed-IsControl.stores (session rx.shared).current_store (session rx.shared)
                    rx.shared.store p)
                  called in
              ground (arith, has, called, kept)
        ]
  ]

  -- `client_finalize`, from the call of `lmqtt_rx_buffer_finish` on.
  abbrev ending : Client U → Option (Client U)
  ending c1 =
      let rx = rx_buffer_finish stored_calls (record c1.rx { shared = copy_in (reach c1) }) in
      client_cleanup_stores (client_call call_depth) false (copy_out rx.shared) >>= λ r.
      some (record c1 { rx = record rx { shared = r } })

  pub finalize_reached :
      (c c' : Client U) → client_finalize c ≡ some c' → IsIn failed (session_of c')
  unfolding client_finalize
  finalize_reached c c' e =
      let (c1, failing, more) =
        bind_some (client_set_state_failed (with_error c closed)) ending e in
      let p = failed_reached (with_error c closed) c1 failing in
      let start : Rx (Session U) = record c1.rx { shared = copy_in (reach c1) } in
      let rx : Rx (Session U) = rx_buffer_finish stored_calls start in
      let (r, cleaned, rest) =
        bind_some {A = Reach U} {B = Client U}
          (client_cleanup_stores (client_call call_depth) false (copy_out rx.shared))
          (λ r. some (record c1 { rx = record rx { shared = r } })) more in
      let same : record c1 { rx = record rx { shared = r } } ≡ c' = ground (arith, rest) in
      let at_end = finish_keeps start p in
      subst (λ k. IsIn failed (session_of k)) same
        (cleanup_keeps_control (IsIn failed) failed-IsControl (client_call call_depth)
          (shut-Keeps (IsIn failed) failed-IsControl (λ s q. q.0) call_depth) false
          (copy_out rx.shared) r
          (failed-IsControl.stores (session rx.shared).current_store (session rx.shared)
            rx.shared.store at_end)
          cleaned)
