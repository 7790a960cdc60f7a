-- ===== src/Client/Requests.antt =====
-- The requests in the stores of the client, and their callbacks. `none` is a fault, or that the
-- callbacks of CONNECTs are nested deeper than `depth` allows.
use lightmqtt.Prelude.{
  ℕ, zero, suc, ◌+◌, Bool, true, false, not, ◌||◌, Option, none, some, if◌then◌else◌, ◌==◌,
}
use lightmqtt.Core.{Kind, kind_code}
use lightmqtt.Core
use lightmqtt.IdSet.{id_set_clear}
use lightmqtt.Encode.{◌>>=◌}
use lightmqtt.Store.{
  Store, StoreValue, Callback, on_connack, on_suback, on_unsuback, on_publish, on_pingresp,
  store_shift, store_get_at, store_delete_at, store_unmark_all,
}
use lightmqtt.Tx.Parts.{as_connect, load}
use lightmqtt.Client.State.{
  OnEvent, StoreName, main, connect, active, Session, Reach, session, set_session, store_of,
  set_store_of,
}

-- A call of the callback of a request, with its address.
abbrev pub Call : Type 0 → Type 0
Call U = Callback → Option ℕ → Reach U → Option (Bool × Reach U)

-- The loop of `client_cleanup_stores` over the main store, from the entry `i` on, with `n` rounds
-- left: each round passes or deletes an entry.
unfoldable pub cleanup_loop : ℕ → Store → ℕ → Store
unfolding store_get_at store_delete_at
cleanup_loop zero store i = store
cleanup_loop (suc n) store i =
    let g = store_get_at store i in
    let deleted = cleanup_loop n (store_delete_at store i).1 i in
    let passed = cleanup_loop n store (i + 1) in
    if g.found
    then (if (g.kind == kind_code Core.Kind.pingreq) || (g.kind == kind_code Core.Kind.disconnect)
        then deleted
        else passed)
    else store

module _ {U : Type 0} where
  -- `client->on_event(client->on_event_data, value, succeeded)`, if it is set
  abbrev pub call_event : Option (OnEvent U) → Option ℕ → Bool → Reach U → Bool × Reach U
  call_event none value succeeded r = (true, r)
  call_event (some f) value succeeded r =
      let (ok, outside) = f value succeeded (session r).outside in
      (ok, set_session r (record (session r) { outside = outside }))

  -- `client_on_suback`
  unfoldable pub client_on_suback : Option ℕ → Reach U → Bool × Reach U
  client_on_suback value r = call_event (session r).on_subscribe value (not (session r).closed) r

  -- `client_on_unsuback`
  unfoldable pub client_on_unsuback : Option ℕ → Reach U → Bool × Reach U
  client_on_unsuback value r =
      call_event (session r).on_unsubscribe value (not (session r).closed) r

  -- `client_on_publish`
  unfoldable pub client_on_publish : Option ℕ → Reach U → Bool × Reach U
  client_on_publish value r = call_event (session r).on_publish value (not (session r).closed) r

  -- `client_on_pingresp`
  unfoldable pub client_on_pingresp : Option ℕ → Reach U → Bool × Reach U
  client_on_pingresp value r = (true, r)

  -- The callback of a value, if it has one.
  abbrev pub notify : Call U → StoreValue → Reach U → Option (Reach U)
  notify call v r = elim v.callback [
    | none ↦ some r
    | some f ↦ call f v.value r >>= λ (ok, r'). some r'
  ]

  -- The loop of `client_flush_store`, with the rounds that there are entries.
  unfoldable pub flush_loop : Call U → ℕ → StoreName → Reach U → Option (Reach U)
  unfolding store_shift
  flush_loop call zero name r =
      if (store_shift (store_of (session r) name)).out.found then none else some r
  flush_loop call (suc n) name r =
      let p = store_shift (store_of (session r) name) in
      let left = set_session r (set_store_of (session r) name p.store) in
      if p.out.found
      then (notify call p.out.value left >>= λ r'. flush_loop call n name r')
      else some r

  -- `client_flush_store`
  unfoldable pub client_flush_store : Call U → StoreName → Reach U → Option (Reach U)
  unfolding flush_loop
  client_flush_store call name r = flush_loop call (store_of (session r) name).count name r

  -- `client_cleanup_stores`
  unfoldable pub client_cleanup_stores : Call U → Bool → Reach U → Option (Reach U)
  unfolding cleanup_loop client_flush_store
  client_cleanup_stores call keep_session r =
      let s = session r in
      let kept =
        set_session r (record s { main_store = cleanup_loop s.main_store.count s.main_store 0 }) in
      (if keep_session
        then some kept
        else (client_flush_store call main r >>= λ r'.
            some (record r' { id_set = id_set_clear r'.id_set })))
      >>= λ r''. client_flush_store call connect r''

  -- `client_set_current_store`
  unfoldable pub client_set_current_store : StoreName → Session U → Session U
  client_set_current_store name s = record s { current_store = name }

  -- `client_set_state_connected`
  unfoldable pub client_set_state_connected : Call U → Reach U → Option (Reach U)
  unfolding client_set_current_store client_cleanup_stores store_unmark_all
  client_set_state_connected call r =
      let s = record (session r) { error = none; os_error = 0; closed = false } in
      client_cleanup_stores call (not s.clean_session)
        (set_session r (client_set_current_store main s))
      >>= λ r'. some (
          set_session r' (record (session r') {
            main_store = store_unmark_all (session r').main_store;
            internal = record (session r').internal {
              subscribe = active;
              unsubscribe = active;
              publish = active;
              pingreq = active;
              disconnect = active;
            };
          }))

  -- `client_on_connack`, where the callbacks of the requests that it flushes are `call`
  unfoldable pub client_on_connack : Call U → Option ℕ → Reach U → Option (Bool × Reach U)
  unfolding client_set_state_connected
  client_on_connack call value r =
      let s = session r in
      if s.closed
      then some (call_event s.on_connect value false r)
      else (load as_connect r.heap value >>= λ (at, c).
          client_set_state_connected call (
            set_session r (record s {
              clean_session = c.clean_session;
              main_store = record s.main_store { keep_alive = c.keep_alive };
            }))
          >>= λ r'. some (call_event (session r').on_connect value true r'))

  -- The callbacks, by their names, with `depth` CONNACKs inside of one another.
  unfoldable pub client_call : ℕ → Call U
  unfolding client_on_connack client_on_suback client_on_unsuback client_on_publish
      client_on_pingresp
  client_call depth on_suback value r = some (client_on_suback value r)
  client_call depth on_unsuback value r = some (client_on_unsuback value r)
  client_call depth on_publish value r = some (client_on_publish value r)
  client_call depth on_pingresp value r = some (client_on_pingresp value r)
  client_call (suc depth) on_connack value r = client_on_connack (client_call depth) value r
  client_call zero on_connack value r =
      if (session r).closed then some (call_event (session r).on_connect value false r) else none
