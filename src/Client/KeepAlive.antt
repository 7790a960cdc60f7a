-- ===== src/Client/KeepAlive.antt =====
-- `client_keep_alive` when the timer of a connected client has run out.
use lightmqtt.Prelude.{
  ◌<◌, ◌≡◌, refl, ap, arith, Bool, true, false, ◌∙◌, none, some, List, [], ◌∷◌, ltb, length, inl,
  inr, Bool-cases,
}
use lightmqtt.Core.{timeout, kind_code}
use lightmqtt.Core
use lightmqtt.Store.{Entry, on_pingresp, store_get_timeout}
use lightmqtt.Store.Queue.{Queue, size}
use lightmqtt.Store.Queue
use lightmqtt.Store.Valid.{IsValid, queue, size-queue}
use lightmqtt.Store.Refine.{append_refines}
use lightmqtt.Client.State.{
  store_of, set_session_of, status_ready, status_error, Client, current, session_of,
}
use lightmqtt.Client.Commands.{
  all_refusing, client_set_state_failed, client_pingreq, client_do_pingreq, request,
}
use lightmqtt.Client.Setup.{client_get_timeout}
use lightmqtt.Client.Exec.{client_keep_alive}
use lightmqtt.Client.Phases.{connected, failed, IsIn}
use lightmqtt.Client.Effects.{Requests-keep}
use lightmqtt.Client.Lifecycle.{asked-Requests}
use lightmqtt.Store.{store_append}
use lightmqtt.Client.Lifecycle.{is_quiet}

-- The PINGREQ in the store.
abbrev pub ping : Entry
ping = record { kind = kind_code Core.Kind.pingreq; value = request 0 none on_pingresp }

nil_of_length : (es : List Entry) → length es ≡ 0 → es ≡ []
nil_of_length [] e = refl
nil_of_length (x ∷ es) e = absurd (omega arith)

append_empty :
    (q : Queue) (e : Entry)
    → size q ≡ 0
    → 0 < q.cap
    → Queue.append q e ≡ (true, record q { waiting = e ∷ [] })
unfolding Queue.append
append_empty q e empty room =
    let none_left : q.waiting ≡ [] = nil_of_length q.waiting (omega arith) in
    ground (arith, none_left)

module _ {U : Type 0} where
  timeout_count :
      (c : Client U)
      → is_quiet (client_get_timeout c).0 ≡ false
      → (client_get_timeout c).0.count ≡ (current (session_of c)).count
  unfolding client_get_timeout store_get_timeout
  timeout_count c expired = ground (arith, expired)

  counted :
      (c : Client U)
      → IsIn connected (session_of c)
      → is_quiet (client_get_timeout c).0 ≡ false
      → (client_get_timeout c).0.count ≡ (session_of c).main_store.count
  counted c (_, _, in_main, _) expired =
      timeout_count c expired ∙ ap (λ name. (store_of (session_of c) name).count) in_main

  asked_main :
      (c : Client U) → (session_of (client_get_timeout c).1).main_store ≡ (session_of c).main_store
  unfolding client_get_timeout
  asked_main c = ground arith

  -- The client that has failed, and the one with a PINGREQ.
  abbrev late : Client U → Client U
  late c =
      let asked = (client_get_timeout c).1 in
      set_session_of asked (record (session_of asked) {
        error = some timeout;
        os_error = 0;
        closed = true;
        internal = all_refusing;
      })

  abbrev pinged : Client U → Client U
  pinged c = (client_do_pingreq (client_get_timeout c).1).1

  -- When the timer of a connected client has run out, one of two things happens at once. With a
  -- request that waits, sent or not, the client fails with a timeout. With none, a PINGREQ waits to
  -- be sent, if the store has room for one entry, and the client goes on.
  pub expired_acts :
      (c : Client U)
      → IsIn connected (session_of c)
      → IsValid (session_of c).main_store
      → 0 < (session_of c).main_store.capacity
      → is_quiet (client_get_timeout c).0 ≡ false
      → (c' : Client U) × ((0 < (session_of c).main_store.count
            → (client_keep_alive c ≡ some (status_error, c'))
              × IsIn failed (session_of c')
              × ((session_of c').error ≡ some timeout))
          × ((session_of c).main_store.count ≡ 0
              → (client_keep_alive c ≡ some (status_ready, c'))
                × IsIn connected (session_of c')
                × (queue (session_of c').main_store
                    ≡ record (queue (session_of c).main_store) { waiting = ping ∷ [] })))
  unfolding client_keep_alive client_set_state_failed client_pingreq client_do_pingreq
  expired_acts c p valid room expired = elim (Bool-cases (ltb 0 (client_get_timeout c).0.count)) [
    | inl waits ↦ (
      late c,
      (
        λ _. (ground (arith, p, expired, waits), (refl, refl, refl), refl),
        λ nothing_waits. absurd (ground (arith, waits, nothing_waits, counted c p expired)),
      ),
    )
    | inr nothing_waits ↦ (
      pinged c,
      (
        λ waits. absurd (ground (arith, waits, nothing_waits, counted c p expired)),
        λ empty. (
          ground (arith, p, expired, nothing_waits),
          Requests-keep connected c (client_get_timeout c).1 (asked-Requests c) p,
          ap
                (λ store.
                  queue
                    (store_append store (kind_code Core.Kind.pingreq)
                      (some (request 0 none on_pingresp))).1)
                (asked_main c)
              ∙ (append_refines (session_of c).main_store (kind_code Core.Kind.pingreq)
                  (some (request 0 none on_pingresp)) valid).1
              ∙ ap (λ (x : Bool × Queue). x.1)
                  (append_empty (queue (session_of c).main_store) ping
                    (size-queue (session_of c).main_store valid ∙ empty) room),
        ),
      ),
    )
  ]
