-- ===== src/Strings/Moving.antt =====
-- `string_write` into a buffer, piece by piece.
use lightmqtt.Prelude.{ℕ, zero, suc, ◌+◌, ◌≤◌, ◌≡◌, refl, sym, ap, ◌∙◌, arith, Option, none, some}
use lightmqtt.Prelude.{
  List, [], ◌∷◌, ◌++◌, append-nil, append_assoc, length, take, take_all, write_at,
}
use lightmqtt.Prelude.{length-write_at, length-append}
use lightmqtt.Prelude.Int.{pos}
use lightmqtt.Encode.{◌>>=◌}
use lightmqtt.Strings.{LmqttString, string_write, string_success}

-- The string has a buffer of its length, and no callback takes its bytes.
pub record IsBuffer {W : Type 0} (str : LmqttString W) (mem : List ℕ) : Type 0 where
  pub len_eq : str.len ≡ pos (length mem)
  pub buf_eq : str.buf ≡ some mem
  pub no_write : str.write ≡ none

take-write_at_end :
    (xs : List ℕ) (p q : ℕ) (ys : List ℕ)
    → q ≡ p + length ys
    → q ≤ length xs
    → take q (write_at xs p ys) ≡ take p xs ++ ys
take-write_at_end xs zero zero [] e h = refl
take-write_at_end xs zero (suc q) [] e h = absurd (omega arith)
take-write_at_end xs zero zero (y ∷ ys) e h = absurd (omega arith)
take-write_at_end [] zero (suc q) (y ∷ ys) e h = absurd (omega arith)
take-write_at_end (x ∷ xs) zero (suc q) (y ∷ ys) e h =
    ap (λ zs. y ∷ zs) (take-write_at_end xs zero q ys (omega arith) (omega arith))
take-write_at_end xs (suc p) zero ys e h = absurd (omega arith)
take-write_at_end [] (suc p) (suc q) ys e h = absurd (omega arith)
take-write_at_end (x ∷ xs) (suc p) (suc q) ys e h =
    ap (λ zs. x ∷ zs) (take-write_at_end xs p q ys (omega arith) (omega arith))

abbrev pub flat : List (List ℕ) → List ℕ
flat [] = []
flat (piece ∷ pieces) = piece ++ flat pieces

module _ {W : Type 0} where
  -- Pieces written one after the other.
  pub write_all : LmqttString W → List (List ℕ) → W → Option (LmqttString W)
  write_all str [] w = some str
  write_all str (piece ∷ pieces) w =
      string_write str piece w >>= λ m. write_all m.str pieces m.world

  abbrev after : LmqttString W → List ℕ → List ℕ → LmqttString W
  after str mem piece = record str {
    buf = some (write_at mem str.pos piece);
    pos = str.pos + length piece;
  }

  write_piece :
      (str : LmqttString W) (mem piece : List ℕ) (w : W)
      → IsBuffer str mem
      → str.pos + length piece ≤ length mem
      → string_write str piece w
        ≡ some (record {
          result = string_success;
          bytes = take (length piece) piece;
          count = length piece;
          os_error = 0;
          str = after str mem piece;
          world = w;
        })
  unfolding string_write
  write_piece str mem [] w b fits = ground arith
  write_piece str mem (x ∷ xs) w b fits = ground (arith, take_all (length (x ∷ xs)) (x ∷ xs))

  -- Pieces that fit are all taken, and the buffer then holds, up to the new place, what it held up to
  -- the old one and the pieces in their order. Nothing else of the string changes.
  pub write_all-flat :
      (pieces : List (List ℕ)) (str : LmqttString W) (mem : List ℕ) (w : W)
      → IsBuffer str mem
      → str.pos + length (flat pieces) ≤ length mem
      → (mem' : List ℕ) × (write_all str pieces w
          ≡ some (record str { buf = some mem'; pos = str.pos + length (flat pieces) }))
        × (take (str.pos + length (flat pieces)) mem' ≡ take str.pos mem ++ flat pieces)
        × (length mem' ≡ length mem)
  unfolding write_all
  write_all-flat [] str mem w b fits =
      let e : str.pos + 0 ≡ str.pos = omega arith in
      (mem, ground (arith, e), ap (λ n. take n mem) e ∙ sym (append-nil (take str.pos mem)), refl)
  write_all-flat (piece ∷ pieces) str mem w b fits =
      let split : length (piece ++ flat pieces) ≡ length piece + length (flat pieces) =
        length-append piece (flat pieces) in
      let size : length (write_at mem str.pos piece) ≡ length mem =
        length-write_at mem str.pos piece in
      let b' : IsBuffer (after str mem piece) (write_at mem str.pos piece) = record {
        len_eq = b.len_eq ∙ ap pos (sym size);
        buf_eq = refl;
        no_write = b.no_write;
      } in
      let (mem', all, held, same) =
        write_all-flat pieces (after str mem piece) (write_at mem str.pos piece) w b'
          (omega arith) in
      let end : str.pos + length piece + length (flat pieces)
          ≡ str.pos + length (piece ++ flat pieces) =
        omega arith in
      (
        mem',
        ground (arith, write_piece str mem piece w b, all, end),
        ap (λ n. take n mem') (sym end)
            ∙ held
            ∙ ap (λ xs. xs ++ flat pieces)
                (take-write_at_end mem str.pos (str.pos + length piece) piece refl (omega arith))
            ∙ append_assoc (take str.pos mem) piece (flat pieces),
        same ∙ size,
      )
