-- ===== src/Client/Effects.antt =====
-- What the commands of the application and the changes of state leave of the session.
use lightmqtt.Prelude.{
  ◌∙◌, ◌==◌, if◌then◌else◌, ℕ, ◌≡◌, refl, subst, ap, ◌⊎◌, arith, Bool, true, false, not, Option,
  none, some, Bool-cases, inl, inr,
}
use lightmqtt.Core.{Error, Kind}
use lightmqtt.Core
use lightmqtt.Publish.{Publish, publish_validate}
use lightmqtt.Subscribe.{subscribe_validate}
use lightmqtt.Strings.{is_some}
use lightmqtt.Store.{Callback, on_suback, on_unsuback}
use lightmqtt.Tx.Weights.{bind_some}
use lightmqtt.Tx.Parts.{load, as_subscribe, as_publish}
use lightmqtt.Client.State.{
  set_store_of, main, connect, Pointer, active, refusing, Session, Client, set_session, reach,
  session_of, set_session_of,
}
use lightmqtt.Client.Requests.{client_cleanup_stores, client_set_current_store, client_call}
use lightmqtt.Client.Commands.{
  Answer, through, touched, call_depth, client_set_state_initial, client_set_state_connecting,
  client_set_state_failed, client_connect, client_subscribe, client_unsubscribe, client_publish,
  client_pingreq, client_disconnect, client_do_connect, client_subscribe_with_kind,
  client_do_subscribe, client_do_unsubscribe, client_do_publish, client_do_pingreq,
  client_do_disconnect,
}
use lightmqtt.Client.Phases.{
  Phase, initial, connecting, connected, failed, IsIn, IsControl, shut-Keeps, cleanup_keeps_control,
}

abbrev IsResetting : {U : Type 0} → Session U → Type 0
IsResetting s = (s.closed ≡ true) × (s.error ≡ none) × (s.current_store ≡ connect)

IsResetting-IsControl : {U : Type 0} → IsControl {U = U} IsResetting
IsResetting-IsControl = record {
  stores = λ name s store p. elim name as (λ k. IsResetting (set_store_of s k store)) [
    | main ↦ p
    | connect ↦ p
  ];
  world = λ s u p. p;
}

module _ {U : Type 0} where
  abbrev pub cleared : Client U → Client U
  cleared c =
      touched
        (set_session_of c (record (session_of c) { error = none; os_error = 0; closed = true }))
        connect

  pub initial_reached :
      (c c' : Client U) → client_set_state_initial c ≡ some c' → IsIn initial (session_of c')
  unfolding client_set_state_initial client_set_current_store
  initial_reached c c' e =
      let (r, cleaned, rest) =
        bind_some
          (client_cleanup_stores (client_call call_depth)
            (not (session_of (cleared c)).clean_session)
            (set_session (reach (cleared c))
              (client_set_current_store connect (session_of (cleared c)))))
          _ e in
      let p =
        cleanup_keeps_control IsResetting IsResetting-IsControl (client_call call_depth)
          (shut-Keeps IsResetting IsResetting-IsControl (λ s q. q.0) call_depth)
          (not (session_of (cleared c)).clean_session)
          (set_session (reach (cleared c))
            (client_set_current_store connect (session_of (cleared c))))
          r (refl, refl, refl) cleaned in
      ground (arith, rest, p)

  pub failed_reached :
      (c c' : Client U) → client_set_state_failed c ≡ some c' → IsIn failed (session_of c')
  unfolding client_set_state_failed
  failed_reached c c' e = ground (arith, e)

  -- The commands that put a request into the main store leave the rest of the session alone.
  abbrev pub Requests : Client U → Client U → Type 0
  Requests c c' =
      let s = session_of c in
      let s' = session_of c' in
      (s'.closed ≡ s.closed)
      × (s'.error ≡ s.error)
      × (s'.current_store ≡ s.current_store)
      × (s'.internal ≡ s.internal)

  pub Requests-keep :
      (phase : Phase) (c c' : Client U)
      → Requests c c'
      → IsIn phase (session_of c)
      → IsIn phase (session_of c')
  Requests-keep initial c c' (a, b, d, e) (p, q, r, t) = (a ∙ p, b ∙ q, d ∙ r, e ∙ t)
  Requests-keep connecting c c' (a, b, d, e) (p, q, r, t) = (a ∙ p, b ∙ q, d ∙ r, e ∙ t)
  Requests-keep connected c c' (a, b, d, e) (p, q, r, t) = (a ∙ p, b ∙ q, d ∙ r, e ∙ t)
  Requests-keep failed c c' (a, b, d, e) (p, q, t) = (a ∙ p, ap is_some b ∙ q, e ∙ t)

  picked :
      (c c' : Client U) (x : Bool × Client U) (ok : Bool)
      → ◌≡◌ {A = Option (Bool × Client U)} (some x) (some (ok, c'))
      → Requests c x.1
      → Requests c c'
  picked c c' x ok e r = let same : x.1 ≡ c' = ground (arith, e) in subst (λ y. Requests c y) same r

  through-Requests :
      (pointer : Pointer) (c c' : Client U) (answer : Answer U) (ok : Bool)
      → (answer ≡ some (ok, c') → Requests c c')
      → through pointer c answer ≡ some (ok, c')
      → Requests c c'
  through-Requests active c c' answer ok asked e = asked e
  through-Requests refusing c c' answer ok asked e =
      picked c c' (false, c) ok e (refl, refl, refl, refl)

  -- One of two ways to put a request into the main store, or none.
  chosen :
      (c c' : Client U) (t : Bool) (x y : Bool × Client U) (ok : Bool)
      → Requests c x.1
      → Requests c y.1
      → ◌≡◌ {A = Option (Bool × Client U)} (some (if t then x else y)) (some (ok, c'))
      → Requests c c'
  chosen c c' true x y ok p q e = picked c c' x ok e p
  chosen c c' false x y ok p q e = picked c c' y ok e q

  subscribe_with_kind-Requests :
      (c c' : Client U) (at : ℕ) (kind : Kind) (callback : Callback) (ok : Bool)
      → client_subscribe_with_kind c at kind callback ≡ some (ok, c')
      → Requests c c'
  unfolding client_subscribe_with_kind
  subscribe_with_kind-Requests c c' at kind callback ok e =
      let ((i, p), stands, checked) = bind_some (load as_subscribe (reach c).heap (some at)) _ e in
      let (valid, shown, rest) = bind_some (subscribe_validate p) _ checked in
      chosen c c' (not valid) (false, c) _ ok (refl, refl, refl, refl) (refl, refl, refl, refl) rest

  pub subscribe-Requests :
      (c c' : Client U) (at : ℕ) (ok : Bool) → client_subscribe c at ≡ some (ok, c') → Requests c c'
  unfolding client_subscribe client_do_subscribe
  subscribe-Requests c c' at ok e =
      through-Requests (session_of c).internal.subscribe c c' (client_do_subscribe c at) ok
        (subscribe_with_kind-Requests c c' at Core.Kind.subscribe on_suback ok) e

  pub unsubscribe-Requests :
      (c c' : Client U) (at : ℕ) (ok : Bool)
      → client_unsubscribe c at ≡ some (ok, c')
      → Requests c c'
  unfolding client_unsubscribe client_do_unsubscribe
  unsubscribe-Requests c c' at ok e =
      through-Requests (session_of c).internal.unsubscribe c c' (client_do_unsubscribe c at) ok
        (subscribe_with_kind-Requests c c' at Core.Kind.unsubscribe on_unsuback ok) e

  published :
      (c c' : Client U) (at : ℕ) (p : Publish (Session U)) (ok : Bool)
      → publish_validate p ≡ true
      → (x y : Bool × Client U)
      → ◌≡◌ {A = Option (Bool × Client U)}
          (some (if not (publish_validate p) then (false, c) else if p.qos == 0 then x else y))
          (some (ok, c'))
      → ◌≡◌ {A = Option (Bool × Client U)} (some (if p.qos == 0 then x else y)) (some (ok, c'))
  published c c' at p ok valid x y e = ground (arith, valid, e)

  do_publish-Requests :
      (c c' : Client U) (at : ℕ) (ok : Bool)
      → client_do_publish c at ≡ some (ok, c')
      → Requests c c'
  unfolding client_do_publish
  do_publish-Requests c c' at ok e =
      let ((i, p), stands, rest) = bind_some (load as_publish (reach c).heap (some at)) _ e in
      elim (Bool-cases (publish_validate p)) [
        | inr invalid ↦
            picked c c' (false, c) ok (ground (arith, rest, invalid)) (refl, refl, refl, refl)
        | inl valid ↦
            chosen c c' (p.qos == 0) _ _ ok (refl, refl, refl, refl) (refl, refl, refl, refl)
              (published c c' at p ok valid _ _ rest)
      ]

  pub publish-Requests :
      (c c' : Client U) (at : ℕ) (ok : Bool) → client_publish c at ≡ some (ok, c') → Requests c c'
  unfolding client_publish
  publish-Requests c c' at ok e =
      through-Requests (session_of c).internal.publish c c' (client_do_publish c at) ok
        (do_publish-Requests c c' at ok) e

  pub disconnect-Requests :
      (c c' : Client U) (ok : Bool) → client_disconnect c ≡ some (ok, c') → Requests c c'
  unfolding client_disconnect client_do_disconnect
  disconnect-Requests c c' ok e =
      through-Requests (session_of c).internal.disconnect c c' (some (client_do_disconnect c)) ok
        (λ asked. picked c c' (client_do_disconnect c) ok asked (refl, refl, refl, refl)) e

  pub pingreq-Requests :
      (c c' : Client U) (ok : Bool) → client_pingreq c ≡ some (ok, c') → Requests c c'
  unfolding client_pingreq client_do_pingreq
  pingreq-Requests c c' ok e =
      through-Requests (session_of c).internal.pingreq c c' (some (client_do_pingreq c)) ok
        (λ asked. picked c c' (client_do_pingreq c) ok asked (refl, refl, refl, refl)) e

  -- CONNECT is refused but in the initial state, where it may be accepted.
  pub connect_leads :
      (phase : Phase) (c c' : Client U) (at : ℕ) (ok : Bool)
      → IsIn phase (session_of c)
      → client_connect c at ≡ some (ok, c')
      → (IsIn phase (session_of c') × (ok ≡ false))
        ⊎ (IsIn connecting (session_of c') × (ok ≡ true) × (phase ≡ initial))
  unfolding client_connect client_do_connect client_set_state_connecting
  connect_leads initial c c' at ok p e = ground (arith, e, p)
  connect_leads connecting c c' at ok p e = inl (ground (arith, e, p))
  connect_leads connected c c' at ok p e = inl (ground (arith, e, p))
  connect_leads failed c c' at ok p e = inl (ground (arith, e, p))
