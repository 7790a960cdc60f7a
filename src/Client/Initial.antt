-- ===== src/Client/Initial.antt =====
-- `client_set_state_initial` and the requests that it ends.
mod Flush
use lightmqtt.Prelude.{
  ℕ, zero, suc, ◌<◌, ◌≡◌, refl, sym, subst, ap, ◌∙◌, arith, true, false, not, some, Bool-cases, inl,
  inr,
}
use lightmqtt.IdSet.{IdSet, id_set_clear}
use lightmqtt.Tx.Loop.{tx_buffer_finish}
use lightmqtt.Store.{Store, StoreValue, store_shift, store_pop_at, store_get_at, store_touch}
use lightmqtt.Store.Valid.{IsValid, shift-IsValid}
use lightmqtt.Client.State.{
  set_reach, active, StoreName, main, connect, Session, Client, Reach, session, set_session,
  store_of, set_store_of, reach, session_of,
}
use lightmqtt.Client.Requests.{
  flush_loop, client_flush_store, cleanup_loop, client_cleanup_stores, client_set_current_store,
  client_call,
}
use lightmqtt.Client.Commands.{all_refusing, call_depth, client_set_state_initial}
use lightmqtt.Client.Effects.{cleared}
use lightmqtt.Client.Told.{
  requests, requests-shift, requests-nil, handlers, told_one, told, outside_of, closed_notify,
}
use lightmqtt.Client.Initial.Flush.{flush_closed}

module _ {U : Type 0} where
  clears_all :
      (depth : ℕ) (r : Reach U)
      → (session r).closed ≡ true
      → (r' : Reach U) × (client_cleanup_stores (client_call depth) false r ≡ some r')
        × ((session r').connect_store.count ≡ 0)
        × ((session r').main_store.count ≡ 0)
        × (r'.id_set.count ≡ 0)
        × (IsValid (session r).main_store
            → IsValid (session r).connect_store
            → (session r').outside
              ≡ told (handlers (session r)) (requests (session r).connect_store) (
                  told
                    (handlers (session r))
                    (requests (session r).main_store)
                    (session r).outside))
  unfolding client_cleanup_stores client_flush_store id_set_clear
  clears_all depth r shut =
      let (r1, first, f1) = flush_closed depth (session r).main_store.count main r shut refl in
      let r2 : Reach U = record r1 { id_set = id_set_clear r1.id_set } in
      let (r3, second, f2) =
        flush_closed depth (session r2).connect_store.count connect r2 f1.closed refl in
      (
        r3,
        ground (arith, first, second),
        f2.empty,
        ap (λ (x : Store). x.count) f2.others ∙ f1.empty,
        ap (λ (x : IdSet). x.count) f2.ids,
        λ valid valid'.
            f2.all_told (subst IsValid (sym f1.others) valid')
            ∙ ap (λ h. told h (requests (session r1).connect_store) (session r1).outside)
                f1.same_handlers
            ∙ ap (λ store. told (handlers (session r)) (requests store) (session r1).outside)
                f1.others
            ∙ ap (λ o. told (handlers (session r)) (requests (session r).connect_store) o)
                (f1.all_told valid),
      )

  -- The reach with the PINGREQs and DISCONNECTs taken out of the main store.
  abbrev tidied : Reach U → Reach U
  tidied r = set_session r (record (session r) {
    main_store = cleanup_loop (session r).main_store.count (session r).main_store 0;
  })

  clears_some :
      (depth : ℕ) (r : Reach U)
      → (session r).closed ≡ true
      → (r' : Reach U) × (client_cleanup_stores (client_call depth) true r ≡ some r')
        × ((session r').connect_store.count ≡ 0)
        × ((session r').main_store ≡ (session (tidied r)).main_store)
        × (r'.id_set ≡ r.id_set)
        × (IsValid (session r).connect_store
            → (session r').outside
              ≡ told
                  (handlers (session r))
                  (requests (session r).connect_store)
                  (session r).outside)
  unfolding client_cleanup_stores client_flush_store
  clears_some depth r shut =
      let (r1, first, f1) =
        flush_closed depth (session r).connect_store.count connect (tidied r) shut refl in
      (r1, first, f1.empty, f1.others, f1.ids, f1.all_told)

  -- The client behind the cleanup.
  abbrev begun : Client U → Reach U → Client U
  begun c r =
      record (set_reach (cleared c) (
        set_session r
          (record (session r) { internal = record all_refusing { connect = active } }))) {
            tx = tx_buffer_finish c.tx;
          }

  abbrev start_of : Client U → Reach U
  start_of c =
      set_session (reach (cleared c)) (client_set_current_store connect (session_of (cleared c)))

  initial_of :
      (c : Client U) (r : Reach U)
      → client_cleanup_stores
          (client_call call_depth)
          (not (session_of c).clean_session)
          (start_of c)
        ≡ some r
      → client_set_state_initial c ≡ some (begun c r)
  unfolding client_set_state_initial client_set_current_store
  initial_of c r e = rw e refl

  touched-IsValid :
      (c : Client U)
      → IsValid (session_of c).connect_store
      → IsValid (session (start_of c)).connect_store
  unfolding client_set_current_store store_touch
  touched-IsValid c v = record {
    sent_in = v.sent_in;
    fits = v.fits;
    storage = v.storage;
    id_in = v.id_in;
  }

  -- The world outside when the clock was read.
  abbrev pub after_clock : Client U → U
  after_clock c = (c.callbacks.get_time (session_of c).outside).1

  touched_requests :
      (c : Client U)
      → requests (session (start_of c)).connect_store ≡ requests (session_of c).connect_store
  unfolding client_set_current_store store_touch
  touched_requests c = refl

  -- The initial state, where the session is not kept and where it is.
  ends_clean :
      (c : Client U)
      → (session_of c).clean_session ≡ true
      → (c' : Client U) × (client_set_state_initial c ≡ some c')
        × ((session_of c').connect_store.count ≡ 0)
        × ((session_of c').main_store.count ≡ 0)
        × ((reach c').id_set.count ≡ 0)
        × (IsValid (session_of c).main_store
            → IsValid (session_of c).connect_store
            → (session_of c').outside
              ≡ told (handlers (session_of c)) (requests (session_of c).connect_store) (
                  told
                    (handlers (session_of c))
                    (requests (session_of c).main_store)
                    (after_clock c)))
  unfolding client_set_current_store
  ends_clean c clean =
      let (r, done, a, b, d, tells) = clears_all call_depth (start_of c) refl in
      (
        begun c r,
        initial_of c r (
            ap (λ t. client_cleanup_stores (client_call call_depth) (not t) (start_of c)) clean
            ∙ done),
        a,
        b,
        d,
        λ valid valid'.
            tells valid (touched-IsValid c valid')
            ∙ ap
                (λ vs. told (handlers (session_of c)) vs (
                  told (handlers (session_of c)) (requests (session_of c).main_store)
                    (after_clock c)))
                (touched_requests c),
      )

  pub ends_kept :
      (c : Client U)
      → (session_of c).clean_session ≡ false
      → (c' : Client U) × (client_set_state_initial c ≡ some c')
        × ((session_of c').connect_store.count ≡ 0)
        × ((session_of c').main_store
            ≡ cleanup_loop (session_of c).main_store.count (session_of c).main_store 0)
        × ((reach c').id_set ≡ (reach c).id_set)
        × (IsValid (session_of c).connect_store
            → (session_of c').outside
              ≡ told
                  (handlers (session_of c))
                  (requests (session_of c).connect_store)
                  (after_clock c))
  unfolding client_set_current_store
  ends_kept c keep =
      let (r, done, a, b, d, tells) = clears_some call_depth (start_of c) refl in
      (
        begun c r,
        initial_of c r (
            ap (λ t. client_cleanup_stores (client_call call_depth) (not t) (start_of c)) keep
            ∙ done),
        a,
        b,
        d,
        λ valid.
            tells (touched-IsValid c valid)
            ∙ ap (λ vs. told (handlers (session_of c)) vs (after_clock c)) (touched_requests c),
      )

  -- With valid stores the initial state is reached: the loops end and no assertion fails. The
  -- application is told of the failure of every request in the connect store, and before it, if the
  -- session is not to be kept, of every request in the main store, those that were sent first: of each
  -- once, in order, by the function that it has set for the request, and of nothing else. The connect
  -- store is empty then. So is the main store, and the id set, if the session is not to be kept; if it
  -- is, the main store is what the cleanup leaves of it, and the id set stays.
  pub initial_ends :
      (c : Client U)
      → IsValid (session_of c).main_store
      → IsValid (session_of c).connect_store
      → (c' : Client U) × (client_set_state_initial c ≡ some c')
        × ((session_of c').connect_store.count ≡ 0)
        × ((session_of c).clean_session ≡ true
            → ((session_of c').main_store.count ≡ 0)
              × ((reach c').id_set.count ≡ 0)
              × ((session_of c').outside
                  ≡ told (handlers (session_of c)) (requests (session_of c).connect_store) (
                      told
                        (handlers (session_of c))
                        (requests (session_of c).main_store)
                        (after_clock c))))
        × ((session_of c).clean_session ≡ false
            → ((session_of c').main_store
                ≡ cleanup_loop (session_of c).main_store.count (session_of c).main_store 0)
              × ((reach c').id_set ≡ (reach c).id_set)
              × ((session_of c').outside
                  ≡ told
                      (handlers (session_of c))
                      (requests (session_of c).connect_store)
                      (after_clock c)))
  initial_ends c valid valid' = elim (Bool-cases (session_of c).clean_session) [
    | inl clean ↦
        let (c', done, a, b, d, tells) = ends_clean c clean in
        (c', done, a, λ _. (b, d, tells valid valid'), λ keep. absurd (ground (arith, clean, keep)))
    | inr keep ↦
        let (c', done, a, b, d, tells) = ends_kept c keep in
        (c', done, a, λ clean. absurd (ground (arith, clean, keep)), λ _. (b, d, tells valid'))
  ]
