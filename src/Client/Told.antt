-- ===== src/Client/Told.antt =====
-- What the application is told of the requests of a client that is closed.
use lightmqtt.Prelude.{
  ℕ, zero, suc, ◌≡◌, refl, sym, ap, ◌∙◌, arith, Bool, true, false, Option, none, some, List, [],
  ◌∷◌, ◌++◌, map, take, take-append-drop, Option-cases, inl, inr,
}
use lightmqtt.Store.{
  Store, StoreValue, Callback, on_connack, on_suback, on_unsuback, on_publish, on_pingresp,
  store_shift,
}
use lightmqtt.Store.Defs.{Entry, Got}
use lightmqtt.Store.Queue
use lightmqtt.Store.Queue.{Queue}
use lightmqtt.Store.Valid.{IsValid, items, queue}
use lightmqtt.Store.Refine.{shift_refines, answer}
use lightmqtt.Client.State.{OnEvent, Session, Reach, session, set_session}
use lightmqtt.Client.Requests.{
  call_event, client_on_suback, client_on_unsuback, client_on_publish, client_on_pingresp,
  client_on_connack, notify, client_call,
}

-- The requests of a store: those that were sent, and then those that were not.
abbrev pub requests : Store → List StoreValue
requests s = map (λ (e : Entry). e.value) (Queue.all (queue s))

all-shift :
    (c : ℕ) (sent waiting : List Entry)
    → Queue.all (Queue.shift (record { cap = c; sent = sent; waiting = waiting }))
      ≡ Queue.tail (sent ++ waiting)
unfolding Queue.shift
all-shift c [] waiting = refl
all-shift c (x ∷ xs) waiting = refl

values_of_shift :
    (es : List Entry) (g : Got)
    → g ≡ answer (Queue.head? es)
    → g.found ≡ true
    → map (λ (e : Entry). e.value) es ≡ g.value ∷ map (λ (e : Entry). e.value) (Queue.tail es)
values_of_shift [] g e found = absurd (ground (arith, e, found))
values_of_shift (x ∷ xs) g e found =
    ap (λ (k : Got). k.value ∷ map (λ (e : Entry). e.value) xs) (sym e)

pub requests-shift :
    (s : Store)
    → IsValid s
    → (store_shift s).out.found ≡ true
    → requests s ≡ (store_shift s).out.value ∷ requests (store_shift s).store
requests-shift s v found =
    let (out, left) = shift_refines s v in
    let q : Queue = queue s in
    let rest : Queue.all (queue (store_shift s).store) ≡ Queue.tail (Queue.all q) =
      ap Queue.all left ∙ all-shift q.cap q.sent q.waiting in
    values_of_shift (Queue.all q) (store_shift s).out out found
    ∙ ap (λ es. (store_shift s).out.value ∷ map (λ (e : Entry). e.value) es) (sym rest)

pub requests-nil : (s : Store) → s.count ≡ 0 → requests s ≡ []
requests-nil s none_left =
    ap (λ es. map (λ (e : Entry). e.value) es)
      (take-append-drop s.pos (items s) ∙ ap (λ n. take n s.entries) none_left)

-- The functions that the application has set: for CONNECT, SUBSCRIBE, UNSUBSCRIBE and PUBLISH.
abbrev pub Handlers : Type 0 → Type 0
Handlers U = Option (OnEvent U) × Option (OnEvent U) × Option (OnEvent U) × Option (OnEvent U)

abbrev pub handlers : {U : Type 0} → Session U → Handlers U
handlers s = (s.on_connect, s.on_subscribe, s.on_unsubscribe, s.on_publish)

-- The function for a request, by what it waits for. A PINGREQ has none.
abbrev pub handler_of : {U : Type 0} → Handlers U → Callback → Option (OnEvent U)
handler_of (c, s, u, p) on_connack = c
handler_of (c, s, u, p) on_suback = s
handler_of (c, s, u, p) on_unsuback = u
handler_of (c, s, u, p) on_publish = p
handler_of (c, s, u, p) on_pingresp = none

-- The world outside when the function has been told that a request has failed.
abbrev pub told_failure : {U : Type 0} → Option (OnEvent U) → Option ℕ → U → U
told_failure none value u = u
told_failure (some f) value u = (f value false u).1

abbrev pub told_one : {U : Type 0} → Handlers U → StoreValue → U → U
told_one h v u = elim v.callback [ none ↦ u | some f ↦ told_failure (handler_of h f) v.value u ]

-- The same for all requests of a list, one after the other.
abbrev pub told : {U : Type 0} → Handlers U → List StoreValue → U → U
told h [] u = u
told h (v ∷ vs) u = told h vs (told_one h v u)

module _ {U : Type 0} where
  abbrev pub outside_of : Reach U → U → Reach U
  outside_of r u = set_session r (record (session r) { outside = u })

  event_told :
      (f : Option (OnEvent U)) (v : Option ℕ) (r : Reach U)
      → (ok : Bool) × (call_event f v false r
          ≡ (ok, outside_of r (told_failure f v (session r).outside)))
  event_told none v r = (true, refl)
  event_told (some f) v r = ((f v false (session r).outside).0, refl)

  -- With the client closed, a callback does nothing but tell the application of the failure.
  closed_call :
      (depth : ℕ) (f : Callback) (v : Option ℕ) (r : Reach U)
      → (session r).closed ≡ true
      → (ok : Bool) × (client_call depth f v r
          ≡ some (
            ok,
            outside_of r (told_failure (handler_of (handlers (session r)) f) v (session r).outside),
          ))
  unfolding client_call client_on_suback client_on_unsuback client_on_publish client_on_pingresp
      client_on_connack
  closed_call depth on_suback v r shut =
      let (ok, e) = event_told (session r).on_subscribe v r in (ok, ground (arith, shut, e))
  closed_call depth on_unsuback v r shut =
      let (ok, e) = event_told (session r).on_unsubscribe v r in (ok, ground (arith, shut, e))
  closed_call depth on_publish v r shut =
      let (ok, e) = event_told (session r).on_publish v r in (ok, ground (arith, shut, e))
  closed_call depth on_pingresp v r shut = (true, refl)
  closed_call zero on_connack v r shut =
      let (ok, e) = event_told (session r).on_connect v r in (ok, ground (arith, shut, e))
  closed_call (suc depth) on_connack v r shut =
      let (ok, e) = event_told (session r).on_connect v r in (ok, ground (arith, shut, e))

  pub closed_notify :
      (depth : ℕ) (v : StoreValue) (r : Reach U)
      → (session r).closed ≡ true
      → notify (client_call depth) v r
        ≡ some (outside_of r (told_one (handlers (session r)) v (session r).outside))
  closed_notify depth v r shut = elim (Option-cases v.callback) [
    | inl no_callback ↦ ground (arith, no_callback)
    | inr (f, has) ↦ let (ok, e) = closed_call depth f v.value r shut in ground (arith, has, e)
  ]
