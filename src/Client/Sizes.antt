-- ===== src/Client/Sizes.antt =====
-- The sizes that `lmqtt_client_initialize` is given.
use lightmqtt.Prelude.{ℕ, ◌*◌, ◌<◌, ◌≡◌, refl, ap, arith, some, List, length}
use lightmqtt.IdSet.{IdSet}
use lightmqtt.IdSet.Laws.{IsValid}
use lightmqtt.Tx.Parts.{Object}
use lightmqtt.Client.State.{ClientCallbacks, Session, Client, reach}
use lightmqtt.Client.Setup.{ClientBuffers, blank_client, client_initialize}
use lightmqtt.Client.Initial.{ends_kept}

-- With a size of the id set in bytes, as the examples pass it and as it is passed for the store, and an
-- array that has items, `lmqtt_client_initialize` ends, and the size in bytes is the capacity in items
-- of two bytes: twice the items that the array has, so the id set is not a valid one.
pub byte_size_oversizes :
    {U : Type 0} (entry_size : ℕ) (callbacks : ClientCallbacks U) (buffers : ClientBuffers)
    (objects : List (Object (Session U))) (outside : U)
    → 0 < length buffers.id_set
    → buffers.id_set_size ≡ 2 * length buffers.id_set
    → (c : Client U) × (client_initialize entry_size callbacks buffers objects outside ≡ some c)
      × ((reach c).id_set.capacity ≡ 2 * length (reach c).id_set.items)
      × ¬ IsValid (reach c).id_set
unfolding client_initialize
byte_size_oversizes entry_size callbacks buffers objects outside some_items in_bytes =
    let blank = blank_client entry_size callbacks buffers objects outside in
    let (c, ends, _, _, ids, _) = ends_kept blank refl in
    let size : (reach c).id_set.capacity ≡ buffers.id_set_size =
      ap (λ (x : IdSet). x.capacity) ids in
    let items : length (reach c).id_set.items ≡ length buffers.id_set =
      ap (λ (x : IdSet). length x.items) ids in
    (
      c,
      ends,
      omega (arith, size, items, in_bytes),
      λ valid. omega (arith, size, items, in_bytes, some_items, valid.storage),
    )
