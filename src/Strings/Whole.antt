-- ===== src/Strings/Whole.antt =====
-- `string_encode` of a string in memory by one call.
use lightmqtt.Prelude.{ℕ, ◌≤◌, ◌≡◌, refl, sym, ap, ◌∙◌, arith, Bool, true}
use lightmqtt.Prelude.{none, some, List, [], ◌++◌, ◌==◌, if◌then◌else◌, not}
use lightmqtt.Prelude.{◌&&◌, ◌||◌, length, take, take_all, Bool-cases, inl, inr}
use lightmqtt.Encode.{finished, EncodeBuffer, Encoded, two_bytes}
use lightmqtt.Strings.{LmqttString, StringWorld, string_encode}
use lightmqtt.Strings.Encoding.{IsMemory, encoding, string_encode_piece}

-- What is sent for the string: nothing if it is empty and may be left out.
abbrev pub text : Bool → Bool → List ℕ → List ℕ
text encode_len encode_if_empty bs =
    if length bs == 0 && not encode_if_empty
    then []
    else if encode_len
    then two_bytes (length bs) ++ bs
    else bs

-- The call has sent all, and leaves what it was given but for the place in the string.
pub record IsWhole {W : Type 0} (str : LmqttString W) (b : EncodeBuffer) (w : W) (sent : List ℕ)
    (e : Encoded (StringWorld W)) : Type 0 where
  pub ends : e.result ≡ finished
  pub all : e.written ≡ sent
  pub kept : (e.buffer.encoded ≡ b.encoded) × (e.buffer.buf ≡ b.buf)
  pub same_world : e.rest.world ≡ w
  pub moved : (n : ℕ) × (e.rest.str ≡ record str { pos = n })

string_skipped :
    {W : Type 0} (str : LmqttString W) (bs : List ℕ) (w : W) (el eie : Bool) (room : ℕ)
    (b : EncodeBuffer)
    → IsMemory str bs
    → (length bs == 0 && not eie) ≡ true
    → string_encode str el eie 0 room b w
      ≡ some (record {
        result = finished;
        written = [];
        buffer = record b { blocking_str = none };
        rest = record { str = str; world = w };
      })
unfolding string_encode
string_skipped str bs w el eie room b m skip = ground (arith, m.len_eq)

-- One call sends a string that fits. An empty string without its length needs to be optional.
pub string_encode-IsWhole :
    {W : Type 0} (str : LmqttString W) (bs : List ℕ) (w : W) (el eie : Bool) (room : ℕ)
    (b : EncodeBuffer)
    → IsMemory str bs
    → (el || not eie) ≡ true
    → length (text el eie bs) ≤ room
    → (e : Encoded (StringWorld W)) × (string_encode str el eie 0 room b w ≡ some e)
      × IsWhole str b w (text el eie bs) e
string_encode-IsWhole str bs w el eie room b m may fits =
    elim (Bool-cases (length bs == 0 && not eie)) [
      | inl skip ↦ (
        _,
        string_skipped str bs w el eie room b m skip,
        record {
          ends = refl;
          all = rw skip;
          kept = (refl, refl);
          same_world = refl;
          moved = (str.pos, refl);
        },
      )
      | inr wanted ↦
          let all : text el eie bs ≡ encoding str bs m w el eie 0 room b = rw wanted in
          let (e, eq, p) =
            string_encode_piece str bs m w el eie 0 room b
              (record {
                wanted = wanted;
                left = ground arith;
                space = ground arith;
                at = inl (ground arith);
              })
              (λ (_, _, o, _). omega (arith, o)) in
          (
            e,
            eq,
            record {
              ends = p.ends ∙ ground (arith, all);
              all =
                  p.piece ∙ ap (λ xs. take room xs) (sym all) ∙ take_all room (text el eie bs) fits;
              kept = p.kept;
              same_world = p.same_world;
              moved = p.moved;
            },
          )
    ]
