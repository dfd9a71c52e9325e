-- ===== src/Runner/Payloads/Delimited.antt =====
-- runner/data.go, `createPayloadsFromBin`: what it reads from messages written one behind the other.
use ghz.Prelude.{
  ℕ, zero, suc, ◌<◌, ◌≡◌, refl, false, List, [], ◌∷◌, ◌++◌, some, arith, length, length-append,
}
use ghz.Prelude.Text.{Str, is_empty}
use ghz.Runner.Config.{ok}
use ghz.Runner.Payloads.{
  Codec, decoded, at_end, decode_all, create_payloads_from_bin,
  create_payloads_from_bin_count_delimited,
}

module _ {H O M : Type 0} (codec : Codec H O M) (encode : M → Str) where
  -- All messages, each with its length in front of it.
  abbrev pub encode_all : List M → Str
  encode_all [] = []
  encode_all (m ∷ ms) = encode m ++ encode_all ms

  module _ (ends : codec.decode_message [] ≡ at_end)
      (reads : (m : M) (rest : Str) → codec.decode_message (encode m ++ rest) ≡ decoded m rest)
      (some_byte : (m : M) → 0 < length (encode m)) where
    decode_all-encode_all :
        (fuel : ℕ) (ms : List M)
        → length (encode_all ms) < fuel
        → decode_all codec fuel (encode_all ms) ≡ some (ok ms)
    unfolding decode_all
    decode_all-encode_all zero ms h = absurd (omega arith)
    decode_all-encode_all (suc fuel) [] h = rw (decode_all, ends)
    decode_all-encode_all (suc fuel) (m ∷ ms) h = rw (
      decode_all,
      reads m (encode_all ms),
      decode_all-encode_all fuel ms
          (omega (arith, some_byte m, length-append (encode m) (encode_all ms))),
    )

    filled : (s : Str) → 0 < length s → is_empty s ≡ false
    filled [] h = absurd (omega arith)
    filled (c ∷ s) h = refl

    delimited_lem :
        (m : M) (ms : List M)
        → create_payloads_from_bin_count_delimited codec (encode_all (m ∷ ms)) ≡ some (ok (m ∷ ms))
    unfolding create_payloads_from_bin_count_delimited
    delimited_lem m ms = rw (
      create_payloads_from_bin_count_delimited,
      filled (encode_all (m ∷ ms))
          (omega (arith, some_byte m, length-append (encode m) (encode_all ms))),
      decode_all-encode_all (suc (length (encode_all (m ∷ ms)))) (m ∷ ms) (omega arith),
    )

    -- Binary data that is one or more messages, each with its length in front of it, is read as these
    -- messages, given a decoder that reads back one encoded message, whatever follows, and says that it is
    -- at the end of an empty buffer, and an encoding of at least one byte.
    pub create_payloads_from_bin-encode_all :
        (m : M) (ms : List M)
        → create_payloads_from_bin codec (encode_all (m ∷ ms)) ≡ some (ok (m ∷ ms))
    unfolding create_payloads_from_bin
    create_payloads_from_bin-encode_all m ms = rw (create_payloads_from_bin, delimited_lem m ms)
