-- ===== src/Client/Reachable.antt =====
-- The clients that a program meets, and the commands that they take.
use lightmqtt.Prelude.{ℕ, ◌≡◌, ap, ◌∙◌, arith, Bool, true, false, not, ◌&&◌, Option, some, List}
use lightmqtt.Prelude.{if◌then◌else◌}
use lightmqtt.Strings.{is_some}
use lightmqtt.Tx.Parts.{Object}
use lightmqtt.Client.State.{
  ClientCallbacks, StoreName, main, connect, Pointer, active, refusing, Internal, Session, Client,
  session_of,
}
use lightmqtt.Client.Commands.{
  through, client_connect, client_subscribe, client_unsubscribe, client_publish, client_pingreq,
  client_disconnect, client_do_connect, client_do_subscribe, client_do_unsubscribe,
  client_do_publish, client_do_pingreq, client_do_disconnect,
}
use lightmqtt.Client.Setup.{ClientBuffers, blank_client, client_initialize}
use lightmqtt.Client.Phases.{Phase, initial, connecting, connected, failed, IsIn}
use lightmqtt.Client.Effects.{initial_reached}
use lightmqtt.Client.Lifecycle.{Step, step_leads}

-- One client and the other, with steps between them.
pub data Reaches {U : Type 0} : Client U → Client U → Type 0 where
  here : (c : Client U) → Reaches c c
  longer : (c d e : Client U) → Reaches c d → Step d e → Reaches c e

-- Each client that is initialized and then takes any steps is in one of the four states: its
-- function pointers are those of one state, and its `closed`, its error and its current store agree
-- with them.
pub reachable_phase :
    {U : Type 0} (entry_size : ℕ) (callbacks : ClientCallbacks U) (buffers : ClientBuffers)
    (objects : List (Object (Session U))) (outside : U) (start c : Client U)
    → client_initialize entry_size callbacks buffers objects outside ≡ some start
    → Reaches start c
    → (phase : Phase) × IsIn phase (session_of c)
unfolding client_initialize
reachable_phase entry_size callbacks buffers objects outside start c e (here _) =
    (initial, initial_reached (blank_client entry_size callbacks buffers objects outside) start e)
reachable_phase entry_size callbacks buffers objects outside start c e (longer _ d _ before step) =
    let (phase, p) =
      reachable_phase entry_size callbacks buffers objects outside start d e before in
    let (next, _, q) = step_leads phase d c p step in (next, q)

abbrev pub is_main : StoreName → Bool
is_main main = true
is_main connect = false

-- The pointer to a command that acts exactly under this condition.
abbrev pointer_if : Bool → Pointer
pointer_if true = active
pointer_if false = refusing

module _ {U : Type 0} where
  -- CONNECT waits for a client that is closed without an error.
  abbrev can_connect : Session U → Bool
  can_connect s = s.closed && not (is_some s.error)

  -- All other commands wait for the main store of a client that is not closed.
  abbrev can_request : Session U → Bool
  can_request s = not s.closed && is_main s.current_store

  pointers_agree :
      (phase : Phase) (s : Session U)
      → IsIn phase s
      → s.internal ≡ record {
        connect = pointer_if (can_connect s);
        subscribe = pointer_if (can_request s);
        unsubscribe = pointer_if (can_request s);
        publish = pointer_if (can_request s);
        pingreq = pointer_if (can_request s);
        disconnect = pointer_if (can_request s);
      }
  pointers_agree initial s (shut, fine, _, p) = p ∙ ground (arith, shut, fine)
  pointers_agree connecting s (running, _, place, p) = p ∙ ground (arith, running, place)
  pointers_agree connected s (running, _, place, p) = p ∙ ground (arith, running, place)
  pointers_agree failed s (shut, wrong, p) = p ∙ ground (arith, shut, wrong)

  -- A command that acts under the condition, and otherwise returns 0 and changes nothing.
  abbrev pub ActsIf : Bool → Client U → Option (Bool × Client U) → Option (Bool × Client U) → Type 0
  ActsIf b c called acting = called ≡ (if b then acting else some (false, c))

  acts_if :
      (p : Pointer) (b : Bool) (c : Client U) (acting : Option (Bool × Client U))
      → p ≡ pointer_if b
      → ActsIf b c (through p c acting) acting
  acts_if p true c acting e = ground (arith, e)
  acts_if p false c acting e = ground (arith, e)

  -- A client that is initialized and then takes any steps connects exactly if it is closed and has no
  -- error, and takes every other command exactly if it is not closed and its current store is the main
  -- one. A command that is taken does what its function `client_do_connect`, `client_do_subscribe` and
  -- so on does; any other returns 0, reads no object and changes nothing.
  pub commands_obeyed :
      (entry_size : ℕ) (callbacks : ClientCallbacks U) (buffers : ClientBuffers)
      (objects : List (Object (Session U))) (outside : U) (start c : Client U) (at : ℕ)
      → client_initialize entry_size callbacks buffers objects outside ≡ some start
      → Reaches start c
      → let s = session_of c in
        let idle = s.closed && not (is_some s.error) in
        let served = not s.closed && is_main s.current_store in
        ActsIf idle c (client_connect c at) (client_do_connect c at)
        × ActsIf served c (client_subscribe c at) (client_do_subscribe c at)
        × ActsIf served c (client_unsubscribe c at) (client_do_unsubscribe c at)
        × ActsIf served c (client_publish c at) (client_do_publish c at)
        × ActsIf served c (client_pingreq c) (some (client_do_pingreq c))
        × ActsIf served c (client_disconnect c) (some (client_do_disconnect c))
  unfolding client_connect client_subscribe client_unsubscribe client_publish client_pingreq
      client_disconnect
  commands_obeyed entry_size callbacks buffers objects outside start c at e steps =
      let (phase, p) =
        reachable_phase entry_size callbacks buffers objects outside start c e steps in
      let s = session_of c in
      let idle = can_connect s in
      let served = can_request s in
      let same = pointers_agree phase s p in
      (
        acts_if s.internal.connect idle c _ (ap (λ (k : Internal). k.connect) same),
        acts_if s.internal.subscribe served c _ (ap (λ (k : Internal). k.subscribe) same),
        acts_if s.internal.unsubscribe served c _ (ap (λ (k : Internal). k.unsubscribe) same),
        acts_if s.internal.publish served c _ (ap (λ (k : Internal). k.publish) same),
        acts_if s.internal.pingreq served c _ (ap (λ (k : Internal). k.pingreq) same),
        acts_if s.internal.disconnect served c _ (ap (λ (k : Internal). k.disconnect) same),
      )
