-- ===== src/Store/Queue.antt =====
-- What a store promises: two queues of entries, those that were sent and wait for a response, and
-- those that wait to be sent, with room for `cap` entries in all.
use lightmqtt.Prelude.{ℕ, ◌+◌, ◌-◌, ◌≡◌, refl, arith, Bool, true, false, ◌&&◌, Option, none, some}
use lightmqtt.Prelude.{List, [], ◌∷◌, ◌++◌, length, remove_at, ltb, ◌==◌}
use lightmqtt.Prelude.{if◌then◌else◌}
use lightmqtt.Store.Defs.{Entry}

pub record Queue : Type 0 where
  pub cap : ℕ
  pub sent : List Entry
  pub waiting : List Entry

abbrev pub all : Queue → List Entry
all q = q.sent ++ q.waiting

abbrev pub size : Queue → ℕ
size q = length q.sent + length q.waiting

abbrev pub head? {ℓ} : {A : Type ℓ} → List A → Option A
head? [] = none
head? (x ∷ xs) = some x

abbrev pub tail {ℓ} : {A : Type ℓ} → List A → List A
tail [] = []
tail (x ∷ xs) = xs

unfoldable pub append : Queue → Entry → Bool × Queue
append q e =
    if ltb (size q) q.cap then (true, record q { waiting = q.waiting ++ (e ∷ []) }) else (false, q)

unfoldable pub mark : Queue → List Entry → Bool × Queue
mark q [] = (false, q)
mark q (e ∷ es) = (true, record q { sent = q.sent ++ (e ∷ []); waiting = es })

-- The entry of that number, sent ones first, is taken out.
unfoldable pub delete_at : Queue → ℕ → Queue
delete_at q p =
    if ltb p (length q.sent)
    then record q { sent = remove_at q.sent p }
    else record q { waiting = remove_at q.waiting (p - length q.sent) }

abbrev pub matches : ℕ → ℕ → Entry → Bool
matches kind packet_id e = e.kind == kind && e.value.packet_id == packet_id

-- The first entry that answers to the kind and the packet id, and the others in their order.
unfoldable pub pop_first : ℕ → ℕ → List Entry → Option (Entry × List Entry)
pop_first kind packet_id [] = none
pop_first kind packet_id (e ∷ es) =
    if matches kind packet_id e
    then some (e, es)
    else elim (pop_first kind packet_id es) [ none ↦ none | some (x, xs) ↦ some (x, e ∷ xs) ]

-- The oldest entry is taken out, sent or not.
unfoldable pub shift : Queue → Queue
shift q = elim q.sent [
  | [] ↦ record q { waiting = tail q.waiting }
  | x ∷ xs ↦ record q { sent = xs }
]

pub delete_at-zero : (q : Queue) → delete_at q 0 ≡ shift q
unfolding delete_at shift
delete_at-zero q = ground arith

pub shift-nil : (c : ℕ) → let q : Queue = record { cap = c; sent = []; waiting = [] } in shift q ≡ q
unfolding shift
shift-nil c = refl
