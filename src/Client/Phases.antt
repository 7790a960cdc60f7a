-- ===== src/Client/Phases.antt =====
-- The four states of the client, and what the callbacks of requests leave of them.
pub mod Running
use lightmqtt.Prelude.{
  ℕ, zero, suc, ◌≡◌, refl, arith, Bool, true, false, not, Option, none, some, Option-cases,
  Bool-cases, inl, inr, subst,
}
use lightmqtt.IdSet.{id_set_clear}
use lightmqtt.Encode.{◌>>=◌}
use lightmqtt.Strings.{is_some}
use lightmqtt.Store.{
  Store, Callback, on_connack, on_suback, on_unsuback, on_publish, on_pingresp, StoreValue,
  store_shift,
}
use lightmqtt.Tx.Weights.{bind_some}
use lightmqtt.Tx.Parts.{as_connect, load}
use lightmqtt.Client.State.{
  OnEvent, StoreName, main, connect, active, refusing, Internal, Session, Reach, session,
  set_session, store_of, set_store_of,
}
use lightmqtt.Client.Requests.{
  Call, call_event, client_on_suback, client_on_unsuback, client_on_publish, client_on_pingresp,
  notify, flush_loop, client_flush_store, client_cleanup_stores, client_set_current_store,
  client_set_state_connected, client_on_connack, client_call,
}
use lightmqtt.Client.Commands.{all_refusing}

pub data Phase : Type 0 where
  initial connecting connected failed : Phase

abbrev pub connect_only : Internal
connect_only = record all_refusing { connect = active }

abbrev pub all_but_connect : Internal
all_but_connect = record {
  connect = refusing;
  subscribe = active;
  unsubscribe = active;
  publish = active;
  pingreq = active;
  disconnect = active;
}

-- What holds of the session in each of them.
abbrev pub IsIn : {U : Type 0} → Phase → Session U → Type 0
IsIn initial s =
    (s.closed ≡ true) × (s.error ≡ none) × (s.current_store ≡ connect) × (s.internal ≡ connect_only)
IsIn connecting s =
    (s.closed ≡ false)
    × (s.error ≡ none)
    × (s.current_store ≡ connect)
    × (s.internal ≡ all_refusing)
IsIn connected s =
    (s.closed ≡ false)
    × (s.error ≡ none)
    × (s.current_store ≡ main)
    × (s.internal ≡ all_but_connect)
IsIn failed s = (s.closed ≡ true) × (is_some s.error ≡ true) × (s.internal ≡ all_refusing)

-- A property of sessions that callbacks keep.
abbrev pub Keeps : {U : Type 0} → (Session U → Type 0) → Call U → Type 0
Keeps P call =
    (f : Callback) (v : Option ℕ) (r : _) (ok : Bool) (r' : _)
    → P (session r)
    → call f v r ≡ some (ok, r')
    → P (session r')

-- Stores and the world outside do not matter to it.
pub record IsControl {U : Type 0} (P : Session U → Type 0) : Type 0 where
  pub stores :
      (name : StoreName) (s : Session U) (store : Store) → P s → P (set_store_of s name store)
  pub world : (s : Session U) (u : U) → P s → P (record s { outside = u })

module _ {U : Type 0} (P : Session U → Type 0) (control : IsControl P) (call : Call U)
    (keeps : Keeps P call) where
  notify_keeps :
      (v : StoreValue) (r r' : Reach U) → P (session r) → notify call v r ≡ some r' → P (session r')
  notify_keeps v r r' p e = elim (Option-cases v.callback) [
    | inl no_callback ↦
        let same : r ≡ r' = ground (arith, e, no_callback) in subst (λ x. P (session x)) same p
    | inr (f, has) ↦ elim (Option-cases (call f v.value r)) [
      | inl broke ↦ absurd (ground (arith, e, has, broke))
      | inr ((ok, next), called) ↦
          let same : next ≡ r' = ground (arith, e, has, called) in
          subst (λ x. P (session x)) same (keeps f v.value r ok next p called)
    ]
  ]

  flush_loop_keeps :
      (n : ℕ) (name : StoreName) (r r' : Reach U)
      → P (session r)
      → flush_loop call n name r ≡ some r'
      → P (session r')
  unfolding flush_loop
  flush_loop_keeps zero name r r' p e =
      let same : r ≡ r' = ground (arith, e) in subst (λ x. P (session x)) same p
  flush_loop_keeps (suc n) name r r' p e =
      let out = store_shift (store_of (session r) name) in
      let left : Reach U = set_session r (set_store_of (session r) name out.store) in
      elim (Bool-cases out.out.found) [
        | inr empty ↦
            let same : r ≡ r' = ground (arith, e, empty) in subst (λ x. P (session x)) same p
        | inl found ↦
            let (next, notified, rest) =
              bind_some (notify call out.out.value left) (flush_loop call n name)
                (ground (arith, e, found)) in
            flush_loop_keeps n name next r'
              (notify_keeps out.out.value left next (control.stores name (session r) out.store p)
                notified)
              rest
      ]

  pub cleanup_keeps_control :
      (keep_session : Bool) (r r' : Reach U)
      → P (session r)
      → client_cleanup_stores call keep_session r ≡ some r'
      → P (session r')
  unfolding client_cleanup_stores client_flush_store
  cleanup_keeps_control true r r' p e =
      flush_loop_keeps _ connect _ r' (control.stores main (session r) _ p) e
  cleanup_keeps_control false r r' p e =
      let (next, cleared, rest) =
        bind_some {A = Reach U} {B = Reach U} _ (λ x. client_flush_store call connect x) e in
      let (flushed, first, same) =
        bind_some {A = Reach U} {B = Reach U} _
          (λ x. some (record x { id_set = id_set_clear x.id_set })) cleared in
      let same' : record flushed { id_set = id_set_clear flushed.id_set } ≡ next =
        ground (arith, same) in
      flush_loop_keeps _ connect next r'
        (subst (λ x. P (session x)) same' (flush_loop_keeps _ main r flushed p first)) rest

module _ {U : Type 0} (P : Session U → Type 0) (control : IsControl P) where
  pub event_keeps :
      (f : Option (OnEvent U)) (v : Option ℕ) (succeeded : Bool) (r : Reach U)
      → P (session r)
      → P (session (call_event f v succeeded r).1)
  event_keeps none v succeeded r p = p
  event_keeps (some f) v succeeded r p = control.world (session r) _ p

  pub returns :
      (x : Bool × Reach U) (ok : Bool) (r' : Reach U)
      → ◌≡◌ {A = Option (Bool × Reach U)} (some x) (some (ok, r'))
      → P (session x.1)
      → P (session r')
  returns x ok r' e p = let same : x.1 ≡ r' = ground (arith, e) in subst (λ y. P (session y)) same p

  -- The callbacks that are not `client_on_connack` keep it.
  pub leaf_keeps :
      (depth : ℕ) (f : Callback) (v : Option ℕ) (r : Reach U) (ok : Bool) (r' : Reach U)
      → (f ≡ on_connack → (session r).closed ≡ true)
      → P (session r)
      → client_call depth f v r ≡ some (ok, r')
      → P (session r')
  unfolding client_call client_on_suback client_on_unsuback client_on_publish client_on_pingresp
      client_on_connack
  leaf_keeps depth on_suback v r ok r' c p e = returns _ ok r' e (event_keeps _ v _ r p)
  leaf_keeps depth on_unsuback v r ok r' c p e = returns _ ok r' e (event_keeps _ v _ r p)
  leaf_keeps depth on_publish v r ok r' c p e = returns _ ok r' e (event_keeps _ v _ r p)
  leaf_keeps depth on_pingresp v r ok r' c p e = returns _ ok r' e p
  leaf_keeps zero on_connack v r ok r' c p e =
      let shut : (session r).closed ≡ true = c refl in
      returns (call_event (session r).on_connect v false r) ok r' (ground (arith, e, shut))
        (event_keeps (session r).on_connect v false r p)
  leaf_keeps (suc depth) on_connack v r ok r' c p e =
      let shut : (session r).closed ≡ true = c refl in
      returns (call_event (session r).on_connect v false r) ok r' (ground (arith, e, shut))
        (event_keeps (session r).on_connect v false r p)

-- Nothing that holds of a closed session only is lost in a callback.
pub shut-Keeps :
    {U : Type 0} (P : Session U → Type 0)
    → IsControl P
    → ((s : Session U) → P s → s.closed ≡ true)
    → (depth : ℕ) → Keeps P (client_call depth)
shut-Keeps P control shut depth f v r ok r' p e =
    leaf_keeps P control depth f v r ok r' (λ _. shut (session r) p) p e
