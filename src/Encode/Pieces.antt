-- ===== src/Encode/Pieces.antt =====
-- Parts of the encode buffer, sent in pieces by `encode_buffer_encode`.
use lightmqtt.Prelude.{ℕ, ◌+◌, ◌-◌, ◌≤◌, ◌<◌, ◌≡◌, refl, sym, ap₂, ◌∙◌, arith}
use lightmqtt.Prelude.{Bool, true, false, Option, none, some, List, [], ◌∷◌, ◌++◌, ltb, leb}
use lightmqtt.Prelude.{length, take, drop, take_all, take-split, drop-drop, take-drop-take}
use lightmqtt.Prelude.{length-take, length-drop, Bool-cases, inl, inr}
use lightmqtt.Encode.{
  finished, continue, EncodeBuffer, zero_buffer, Builder, ◌>>=◌, ensure_built, encode_buffer_encode,
}

-- What has been sent, and whether it was all.
pub record Sent : Type 0 where
  pub complete : Bool
  pub bytes : List ℕ

abbrev pub sum : List ℕ → ℕ
sum [] = 0
sum (x ∷ xs) = x + sum xs

abbrev more : List ℕ → Option Sent → Option Sent
more bytes none = none
more bytes (some s) = some (record s { bytes = bytes ++ s.bytes })

-- Calls of `encode_buffer_encode` with buffers of the given sizes, as `lmqtt_tx_buffer_encode_impl`
-- makes them: the offset grows by what was written until the part is finished.
pub send : Builder → EncodeBuffer → ℕ → List ℕ → Option Sent
send builder b offset [] = some (record { complete = false; bytes = [] })
send builder b offset (room ∷ rooms) = encode_buffer_encode builder b tt offset room >>= λ e.
    elim e.result [
      | finished ↦ some (record { complete = true; bytes = e.written })
      | continue ↦ more e.written (send builder e.buffer (offset + length e.written) rooms)
      | _ ↦ none
    ]

-- The builder gives `p` or has given it.
record IsReady (builder : Builder) (b p : EncodeBuffer) : Type 0 where
  ready : ensure_built builder b ≡ some p
  marked : p.encoded ≡ true
  some_bytes : 0 < p.buf_len
  inside : p.buf_len ≤ length p.buf

abbrev pub part : EncodeBuffer → List ℕ
part p = take p.buf_len p.buf

encode_continue :
    (builder : Builder) (b p : EncodeBuffer) (o room : ℕ)
    → IsReady builder b p
    → o < p.buf_len
    → room < p.buf_len - o
    → encode_buffer_encode builder b tt o room
      ≡ some
          (record { result = continue; written = take room (drop o p.buf); buffer = p; rest = tt })
unfolding encode_buffer_encode
encode_continue builder b p o room r lt small = rw r.ready (ground arith)

encode_finish :
    (builder : Builder) (b p : EncodeBuffer) (o room : ℕ)
    → IsReady builder b p
    → o < p.buf_len
    → p.buf_len - o ≤ room
    → encode_buffer_encode builder b tt o room
      ≡ some (record {
        result = finished;
        written = take (p.buf_len - o) (drop o p.buf);
        buffer = zero_buffer;
        rest = tt;
      })
unfolding encode_buffer_encode
encode_finish builder b p o room r lt big = rw r.ready (ground arith)

IsReady-again : (builder : Builder) (b p : EncodeBuffer) → IsReady builder b p → IsReady builder p p
IsReady-again builder b p r = record {
  ready = rw r.marked;
  marked = r.marked;
  some_bytes = r.some_bytes;
  inside = r.inside;
}

length-piece :
    (p : EncodeBuffer) (o room : ℕ)
    → p.buf_len ≤ length p.buf
    → o + room ≤ p.buf_len
    → length (take room (drop o p.buf)) ≡ room
length-piece p o room h k = omega (arith, length-take room (drop o p.buf), length-drop o p.buf)

-- A piece of the buffer and what is to be sent behind it make a piece of the part.
piece-append :
    (p : EncodeBuffer) (o room n : ℕ)
    → o + room ≤ p.buf_len
    → take room (drop o p.buf) ++ take n (drop (o + room) (part p))
      ≡ take (room + n) (drop o (part p))
piece-append p o room n h =
    ap₂ (λ xs ys. xs ++ take n ys) (sym (take-drop-take room o p.buf_len p.buf h))
      (sym (drop-drop room o (part p)))
    ∙ take-split room n (drop o (part p))

-- The last piece is what is left of the part.
piece-last :
    (p : EncodeBuffer) (o n : ℕ)
    → p.buf_len ≤ length p.buf
    → o ≤ p.buf_len
    → p.buf_len - o ≤ n
    → take (p.buf_len - o) (drop o p.buf) ≡ take n (drop o (part p))
piece-last p o n h lt big =
    sym (take-drop-take (p.buf_len - o) o p.buf_len p.buf (omega arith))
    ∙ take_all (p.buf_len - o) (drop o (part p)) (omega (arith, left))
    ∙ sym (take_all n (drop o (part p)) (omega (arith, left)))
  where
    left : length (drop o (part p)) ≡ p.buf_len - o
    left = omega (arith, length-drop o (part p), length-take p.buf_len p.buf)

-- `send` from offset `o` on.
send_from :
    (builder : Builder) (b p : EncodeBuffer) (o : ℕ) (rooms : List ℕ)
    → IsReady builder b p
    → o < p.buf_len
    → send builder b o rooms
      ≡ some (record {
        complete = leb (p.buf_len - o) (sum rooms);
        bytes = take (sum rooms) (drop o (part p));
      })
unfolding send
send_from builder b p o [] r lt = ground arith
send_from builder b p o (room ∷ rooms) r lt = elim (Bool-cases (ltb room (p.buf_len - o))) [
  | inl small ↦ ground (
    arith,
    encode_continue builder b p o room r,
    length-piece p o room,
    send_from builder p p (o + room) rooms (IsReady-again builder b p r),
    piece-append p o room (sum rooms),
  )
  | inr big ↦
      ground (arith, encode_finish builder b p o room r, piece-last p o (sum (room ∷ rooms)))
]

-- However the caller's buffers are cut, the first call builds the part, and what the calls write,
-- in order, is the beginning of the part that fits in the buffers; they finish exactly when it is
-- whole.
pub send-part :
    (builder : Builder) (b p : EncodeBuffer) (rooms : List ℕ)
    → b.encoded ≡ false
    → builder b ≡ some p
    → 0 < p.buf_len
    → p.buf_len ≤ length p.buf
    → send builder b 0 rooms
      ≡ some (record { complete = leb p.buf_len (sum rooms); bytes = take (sum rooms) (part p) })
send-part builder b p rooms new built pos inside =
    let e : p.buf_len - 0 ≡ p.buf_len = omega arith in
    send_from builder b (record p { encoded = true }) 0 rooms
      (record { ready = rw (built, new); marked = refl; some_bytes = pos; inside = inside }) pos
    ∙ rw e

-- A part that fits is sent by one call.
pub encode_whole :
    {A : Type 0} (builder : Builder) (b p : EncodeBuffer) (a : A) (room : ℕ)
    → b.encoded ≡ false
    → builder b ≡ some p
    → 0 < p.buf_len
    → p.buf_len ≤ room
    → encode_buffer_encode builder b a 0 room
      ≡ some (record { result = finished; written = part p; buffer = zero_buffer; rest = a })
unfolding encode_buffer_encode
encode_whole builder b p a room new built pos fits =
    let e : p.buf_len - 0 ≡ p.buf_len = omega arith in ground (arith, new, built, e)
