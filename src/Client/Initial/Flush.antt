-- ===== src/Client/Initial/Flush.antt =====
-- `client_flush_store` of a client that is closed.
use lightmqtt.Prelude.{ℕ, zero, suc, ◌<◌, ◌≡◌, refl, sym, subst, ap, ◌∙◌, arith, true, false, some}
use lightmqtt.Store.{Store, StoreValue, store_shift, store_pop_at, store_get_at}
use lightmqtt.Store.Valid.{IsValid, shift-IsValid}
use lightmqtt.Client.State.{
  StoreName, main, connect, Session, Reach, session, set_session, store_of, set_store_of,
}
use lightmqtt.Client.Requests.{flush_loop, client_call}
use lightmqtt.Client.Told.{
  requests, requests-shift, requests-nil, handlers, told_one, told, outside_of, closed_notify,
}

abbrev pub other : StoreName → StoreName
other main = connect
other connect = main

shift_step :
    (s : Store)
    → (0 < s.count
        → ((store_shift s).out.found ≡ true) × (suc (store_shift s).store.count ≡ s.count))
      × (s.count ≡ 0 → (store_shift s).out.found ≡ false)
unfolding store_shift store_pop_at store_get_at
shift_step s = ground arith

module _ {U : Type 0} where
  -- What a flush of the store leaves.
  pub record IsFlushed (name : StoreName) (r r' : Reach U) : Type 0 where
    pub closed : (session r').closed ≡ true
    pub empty : (store_of (session r') name).count ≡ 0
    pub others : store_of (session r') (other name) ≡ store_of (session r) (other name)
    pub ids : r'.id_set ≡ r.id_set
    pub clean : (session r').clean_session ≡ (session r).clean_session
    pub same_handlers : handlers (session r') ≡ handlers (session r)
    pub all_told :
        IsValid (store_of (session r) name)
        → (session r').outside
          ≡ told (handlers (session r)) (requests (store_of (session r) name)) (session r).outside

  -- What a new store in the place of another leaves of a session.
  abbrev Facts : StoreName → Session U → Store → Session U → Type 0
  Facts name s store s' =
      (s'.closed ≡ s.closed)
      × (store_of s' name ≡ store)
      × (store_of s' (other name) ≡ store_of s (other name))
      × (s'.clean_session ≡ s.clean_session)
      × (handlers s' ≡ handlers s)

  put-Facts :
      (name : StoreName) (s : Session U) (store : Store)
      → Facts name s store (set_store_of s name store)
  put-Facts main s store = (refl, refl, refl, refl, refl)
  put-Facts connect s store = (refl, refl, refl, refl, refl)

  put_outside :
      (name : StoreName) (s : Session U) (store : Store)
      → (set_store_of s name store).outside ≡ s.outside
  put_outside main s store = refl
  put_outside connect s store = refl

  outside-Facts :
      (name : StoreName) (s : Session U) (store : Store) (u : U)
      → Facts name s store (record (set_store_of s name store) { outside = u })
  outside-Facts main s store u = (refl, refl, refl, refl, refl)
  outside-Facts connect s store u = (refl, refl, refl, refl, refl)

  pub flush_closed :
      (depth n : ℕ) (name : StoreName) (r : Reach U)
      → (session r).closed ≡ true
      → (store_of (session r) name).count ≡ n
      → (r' : Reach U) × (flush_loop (client_call depth) n name r ≡ some r') × IsFlushed name r r'
  unfolding flush_loop
  flush_closed depth zero name r shut count =
      let (_, stops) = shift_step (store_of (session r) name) in
      (
        r,
        ground (arith, stops count),
        record {
          closed = shut;
          empty = count;
          others = refl;
          ids = refl;
          clean = refl;
          same_handlers = refl;
          all_told = λ _.
              ap (λ vs. told (handlers (session r)) vs (session r).outside)
                (sym (requests-nil (store_of (session r) name) count));
        },
      )
  flush_closed depth (suc n) name r shut count =
      let s : Store = store_of (session r) name in
      let (goes, _) = shift_step s in
      let (found, fewer) = goes (omega arith) in
      let next : Store = (store_shift s).store in
      let (shut', _, _, _, heard) = put-Facts name (session r) next in
      let left : Reach U = set_session r (set_store_of (session r) name next) in
      let v : StoreValue = (store_shift s).out.value in
      let u : U = told_one (handlers (session left)) v (session left).outside in
      let (shut'', stands, elsewhere, clean, heard') = outside-Facts name (session r) next u in
      let (r', rest, flushed) =
        flush_closed depth n name (outside_of left u) (shut'' ∙ shut)
          (ap (λ (x : Store). x.count) stands ∙ omega arith) in
      (
        r',
        ground (arith, found, closed_notify depth v left (shut' ∙ shut), rest),
        record {
          closed = flushed.closed;
          empty = flushed.empty;
          others = flushed.others ∙ elsewhere;
          ids = flushed.ids;
          clean = flushed.clean ∙ clean;
          same_handlers = flushed.same_handlers ∙ heard';
          all_told = λ valid.
              flushed.all_told (subst IsValid (sym stands) (shift-IsValid s valid))
              ∙ ap (λ h. told h (requests (store_of (session (outside_of left u)) name)) u) heard'
              ∙ ap (λ store. told (handlers (session r)) (requests store) u) stands
              ∙ ap
                  (λ h.
                    told (handlers (session r)) (requests next)
                      (told_one h v (session left).outside))
                  heard
              ∙ ap
                  (λ o.
                    told (handlers (session r)) (requests next)
                      (told_one (handlers (session r)) v o))
                  (put_outside name (session r) next)
              ∙ sym (
                  ap (λ vs. told (handlers (session r)) vs (session r).outside)
                    (requests-shift s valid found));
        },
      )
