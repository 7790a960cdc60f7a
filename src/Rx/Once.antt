-- ===== src/Rx/Once.antt =====
-- Messages of QoS 2 that come again, and the PUBRELs that release their packet ids.
pub mod Packets
use lightmqtt.Prelude.{
  ℕ, suc, ◌+◌, ◌^◌, ◌≤◌, ◌<◌, ◌≡◌, refl, ap, ◌∙◌, arith, Bool, true, false, not, ◌&&◌, ◌||◌, Option,
  none, some, List, [], ◌∷◌,
}
use lightmqtt.Prelude.{if◌then◌else◌, Bool-cases, inl, inr, length, ◌==◌}
use lightmqtt.Core.{io_success, kind_code}
use lightmqtt.Core
use lightmqtt.IdSet.{IdSet, id_set_contains, id_set_put, id_set_remove}
use lightmqtt.IdSet.Laws.{IsValid, put_lem, remove_lem}
use lightmqtt.Store.{Store, StoreValue, zero_value, store_append}
use lightmqtt.Rx.State.{Shared, Rx, StoredCalls}
use lightmqtt.Rx.Loop.{RxEnd, returned, rx_buffer_decode}
use lightmqtt.Rx.Idle.{idle}
use lightmqtt.Rx.Once.Packets.{
  Given, keeping, publish_bytes, pubrel_bytes, reply, kept, released, again_decoded, new_decoded,
  release_decoded,
}

-- A PUBLISH of QoS 2 (sent again or not, its packet id, the byte of its topic and the byte of its
-- payload), or a PUBREL with that packet id.
pub data Event : Type 0 where
  message : Bool → ℕ → ℕ → ℕ → Event
  release : ℕ → Event

abbrev pub id_of : Event → ℕ
id_of (message dup id t b) = id
id_of (release id) = id

abbrev pub bytes_of : Event → List ℕ
bytes_of (message dup id t b) = publish_bytes dup id t b
bytes_of (release id) = pubrel_bytes id

-- The buffer behind a call that has succeeded.
abbrev state_of : RxEnd Given → Option (Rx Given)
state_of (returned io_success n rx) = some rx
state_of _ = none

-- One call of `lmqtt_rx_buffer_decode` for each packet.
pub run : StoredCalls Given → Rx Given → List Event → Option (Rx Given)
run calls rx [] = some rx
run calls rx (e ∷ es) = elim (state_of (rx_buffer_decode keeping calls rx (bytes_of e))) [
  | none ↦ none
  | some next ↦ run calls next es
]

-- The protocol's view: what the application has at the end, when these ids are held and it has had
-- `given` before.
abbrev pub deliveries : (ℕ → Bool) → List Event → Given → Given
deliveries held [] given = given
deliveries held (message dup id t b ∷ es) given =
    let again = deliveries held es given in
    let new = deliveries (λ k. held k || id == k) es ((t ∷ b ∷ []) ∷ given) in
    if held id then again else new
deliveries held (release id ∷ es) given = deliveries (λ k. held k && not (id == k)) es given

abbrev pub messages : List Event → ℕ
messages [] = 0
messages (message dup id t b ∷ es) = suc (messages es)
messages (release id ∷ es) = messages es

abbrev pub AreNarrow : List Event → Type 0
AreNarrow [] = 0 ≤ 0
AreNarrow (e ∷ es) = (id_of e < 2 ^ 16) × AreNarrow es

-- Room for the events to come.
pub record HasRoom (shared : Shared Given) (es : List Event) : Type 0 where
  pub valid : IsValid shared.id_set
  pub ids : shared.id_set.count + messages es ≤ shared.id_set.capacity
  pub answers : shared.store.count + length es ≤ shared.store.capacity

-- What an event does.
Follows : StoredCalls Given → Shared Given → Event → List Event → Type 0
Follows calls shared e es =
    (next : Shared Given) × (state_of (rx_buffer_decode keeping calls (idle shared) (bytes_of e))
      ≡ some (idle next))
    × HasRoom next es
    × (deliveries (id_set_contains next.id_set) es next.heap.world
        ≡ deliveries (id_set_contains shared.id_set) (e ∷ es) shared.heap.world)

put_count :
    (s : IdSet) (id : ℕ)
    → ((id_set_put s id).1.capacity ≡ s.capacity) × ((id_set_put s id).1.count ≤ suc s.count)
unfolding id_set_put
put_count s id = ground arith

remove_count :
    (s : IdSet) (id : ℕ)
    → ((id_set_remove s id).1.capacity ≡ s.capacity) × ((id_set_remove s id).1.count ≤ s.count)
unfolding id_set_remove
remove_count s id = ground arith

append_count :
    (s : Store) (kind : ℕ) (v : Option StoreValue)
    → let (ok, s') = store_append s kind v in
      (s'.capacity ≡ s.capacity) × (s'.count ≤ suc s.count) × (s.count < s.capacity → ok ≡ true)
unfolding store_append
append_count s kind v = ground arith

-- Sets with the same elements tell the same story.
deliveries_eq :
    (f g : ℕ → Bool) (es : List Event) (given : Given)
    → ((b : ℕ) → f b ≡ g b)
    → deliveries f es given ≡ deliveries g es given
deliveries_eq f g es given same = ap (λ h. deliveries h es given) (λ i b. same b i)

module _ (calls : StoredCalls Given) where
  message-Follows :
      (shared : Shared Given) (dup : Bool) (id t b : ℕ) (es : List Event)
      → id < 2 ^ 16
      → HasRoom shared (message dup id t b ∷ es)
      → Follows calls shared (message dup id t b) es
  unfolding Follows
  message-Follows shared dup id t b es narrow room =
      let (ok, others, _, valid) = put_lem shared.id_set id room.valid in
      let kind : ℕ = kind_code Core.Kind.pubrec in
      let counts = append_count shared.store kind (some (record zero_value { packet_id = id })) in
      let counts' = put_count shared.id_set id in
      elim (Bool-cases (id_set_contains shared.id_set id)) [
        | inl held ↦ (
          reply shared kind id,
          ap state_of (again_decoded calls dup shared id t b narrow held),
          record {
            valid = room.valid;
            ids = omega (arith, room.ids);
            answers = omega (arith, room.answers, counts);
          },
          ground (arith, held),
        )
        | inr new ↦
            let fits : (id_set_put shared.id_set id).0 ≡ true = ground (arith, ok, new, room.ids) in
            (
              kept shared id t b,
              ap state_of (new_decoded calls dup shared id t b narrow new fits),
              record {
                valid = valid;
                ids = omega (arith, room.ids, counts');
                answers = omega (arith, room.answers, counts);
              },
              ground (
                arith,
                new,
                deliveries_eq (id_set_contains (id_set_put shared.id_set id).1)
                    (λ k. id_set_contains shared.id_set k || id == k) es
                    ((t ∷ b ∷ []) ∷ shared.heap.world) (λ k. ground (arith, others k, fits)),
              ),
            )
      ]

  release-Follows :
      (shared : Shared Given) (id : ℕ) (es : List Event)
      → id < 2 ^ 16
      → HasRoom shared (release id ∷ es)
      → Follows calls shared (release id) es
  unfolding Follows
  release-Follows shared id es narrow room =
      let (_, others, _, valid) = remove_lem shared.id_set id room.valid in
      let kind : ℕ = kind_code Core.Kind.pubcomp in
      let v : StoreValue = record zero_value { packet_id = id } in
      let (same, more, appended) = append_count shared.store kind (some v) in
      let counts' = remove_count shared.id_set id in
      (
        released shared id,
        ap state_of
            (release_decoded calls shared id narrow (appended (omega (arith, room.answers)))),
        record {
          valid = valid;
          ids = omega (arith, room.ids, counts');
          answers = omega (arith, room.answers, same, more);
        },
        deliveries_eq (id_set_contains (id_set_remove shared.id_set id).1)
            (λ k. id_set_contains shared.id_set k && not (id == k)) es shared.heap.world others,
      )

  event-Follows :
      (shared : Shared Given) (e : Event) (es : List Event)
      → id_of e < 2 ^ 16
      → HasRoom shared (e ∷ es)
      → Follows calls shared e es
  event-Follows shared (message dup id t b) es narrow room =
      message-Follows shared dup id t b es narrow room
  event-Follows shared (release id) es narrow room = release-Follows shared id es narrow room

  -- Whole PUBLISHes of QoS 2 and PUBRELs, in any order and number and with any packet ids, each in one
  -- call of `lmqtt_rx_buffer_decode`, for an application that allocates memory for all topics and
  -- payloads and keeps what it is given: it is given the topic and the payload of each message whose
  -- packet id is not held, once and in their order, and nothing of one whose id is held, until a
  -- PUBREL releases the id. No call fails, if the id set is valid and it and the store have room for
  -- all of them. The topics and the payloads have one byte each.
  pub delivered_once :
      (es : List Event) (shared : Shared Given)
      → AreNarrow es
      → HasRoom shared es
      → (last : Shared Given) × (run calls (idle shared) es ≡ some (idle last))
        × (last.heap.world ≡ deliveries (id_set_contains shared.id_set) es shared.heap.world)
  unfolding run Follows
  delivered_once [] shared narrow room = (shared, refl, refl)
  delivered_once (e ∷ es) shared (first, narrow) room =
      let (next, step, room', told) = event-Follows shared e es first room in
      let (last, rest, given) = delivered_once es next narrow room' in
      (last, ground (arith, step, rest), given ∙ told)
