-- ===== src/IdSet/Tests.antt =====
-- Runs of `lmqtt_id_set_t`.
use lightmqtt.Prelude.{ℕ, ◌≡◌, refl, arith, false, not, ◌&&◌, ◌||◌, [], ◌∷◌, ltb, ◌==◌}
use lightmqtt.Prelude.{get_elem?}
use lightmqtt.IdSet.{IdSet, id_set_clear, id_set_find, id_set_contains, id_set_put, id_set_remove}
use lightmqtt.IdSet.Laws.{IsValid, put_lem, remove_lem}
use lightmqtt.IdSet.Overrun.{remove_overruns}

-- An array of four ids, three of them in use, with four numbers behind it.
abbrev three_ids : IdSet
three_ids = record { items = 5 ∷ 6 ∷ 7 ∷ 0 ∷ 91 ∷ 92 ∷ 93 ∷ 94 ∷ 95 ∷ []; capacity = 4; count = 3 }

abbrev three_ids-IsValid : IsValid three_ids
three_ids-IsValid = record {
  fits = omega arith;
  storage = omega arith;
  distinct = (refl, (refl, (refl, tt)));
}

put_example :
    let (r, s') = id_set_put three_ids 9 in
    (r ≡ (ltb three_ids.count three_ids.capacity && not (id_set_contains three_ids 9)))
    × ((b : ℕ) → id_set_contains s' b ≡ (id_set_contains three_ids b || r && 9 == b))
    × (r ≡ false → s' ≡ three_ids)
    × IsValid s'
put_example = put_lem three_ids 9 three_ids-IsValid

remove_example :
    let (r, s') = id_set_remove three_ids 5 in
    (r ≡ id_set_contains three_ids 5)
    × ((b : ℕ) → id_set_contains s' b ≡ (id_set_contains three_ids b && not (5 == b)))
    × (r ≡ false → s' ≡ three_ids)
    × IsValid s'
remove_example = remove_lem three_ids 5 three_ids-IsValid

-- Removing 5 writes the 92 behind the array over the 91 before it.
overrun_example : get_elem? (id_set_remove three_ids 5).1.items 4 ≡ get_elem? three_ids.items 5
unfolding id_set_find
overrun_example =
    remove_overruns three_ids 5 0 4 refl (omega arith) (omega arith) (omega arith) (omega arith)

cleared : id_set_contains (id_set_clear three_ids) 5 ≡ false
unfolding id_set_contains id_set_clear
cleared = refl
