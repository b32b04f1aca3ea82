-- ===== src/Tests/Codecs.antt =====
-- Codecs of acktor on concrete values, and the adaptor of a program without a node.
use acktor.Base.{
  ℕ, ◌+◌, ◌%◌, ◌/◌, ◌&&◌, length, ◌≡◌, ◌<◌, refl, Option, none, some, List, [], ◌∷◌, Result, ok,
  err, arith, if◌then◌else◌, eqb,
}
use acktor.Codec.{EncodeContext, malformed}
use acktor.Encoding.{Bytes, at, IsCodec}
use acktor.Encoding.Memory.{Zerocopy, size, le_bytes, layout, value, numbers}
use acktor.Encoding.Numbers.{number, bool, number-IsCodec, bool-IsCodec}
use acktor.Encoding.Numbers.Vectors.{vector, decode-encode_vector}
use acktor.Encoding.Tuples.{element, no_elements, FitsBoth, element-IsCodec, no_elements-IsCodec}
use acktor.Encoding.Containers.{Prost, ProtoResultType, ok_bytes, err_text, result}
use acktor.Encoding.Containers.Laws.{FitsResult, result-IsCodec}
use acktor.Adaptor.{ActorAdaptor, send, parse, response, refusal, remote, parse-send}
use acktor.Tests.Serving.{messages, Frame, payload}

abbrev without : Option (EncodeContext ℕ)
without = none

abbrev zero_copy : Zerocopy
zero_copy = record {
  as_bytes = le_bytes;
  slice_as_bytes = layout;
  read_from_bytes = λ n b. if eqb (length b.content) n then some (value b.content) else none;
  from_bytes = λ n b.
      if eqb (b.address % n) 0 && eqb (length b.content % n) 0
      then some (numbers n (length b.content / n) b.content)
      else none;
  as_bytes_lem = λ n v. refl;
  slice_as_bytes_lem = λ n vs. refl;
  read_from_bytes_lem = λ n b. refl;
  from_bytes_lem = λ n b h. refl;
}

-- Two numbers of four bytes, at the address 6.
decode-encode_vector_example :
    (bs : List ℕ) × ((vector zero_copy ℕ 4).encode without (1 ∷ 515 ∷ []) ≡ ok bs)
    × ((vector zero_copy ℕ 4).decode none (at 6 bs) ≡ err malformed)
decode-encode_vector_example =
    decode-encode_vector zero_copy ℕ without none 4 (1 ∷ 515 ∷ []) 6 (omega arith)
      (omega arith, (omega arith, tt))

-- Pairs of a number of two bytes and a Boolean.
element-IsCodec_example :
    IsCodec none
      (element zero_copy
        (number zero_copy ℕ 2)
        (element zero_copy (bool zero_copy ℕ) (no_elements ℕ)))
      without
      (FitsBoth zero_copy without none
        (number zero_copy ℕ 2)
        (element zero_copy (bool zero_copy ℕ) (no_elements ℕ))
        (λ v. v < size 2)
        (FitsBoth zero_copy without none
          (bool zero_copy ℕ)
          (no_elements ℕ)
          (λ b. Unit {0})
          (λ u. Unit {0})))
element-IsCodec_example =
    element-IsCodec zero_copy without none (number zero_copy ℕ 2)
      (element zero_copy (bool zero_copy ℕ) (no_elements ℕ)) (λ v. v < size 2)
      (FitsBoth zero_copy without none (bool zero_copy ℕ) (no_elements ℕ) (λ b. Unit {0})
        (λ u. Unit {0}))
      (number-IsCodec zero_copy without none 2)
      (element-IsCodec zero_copy without none (bool zero_copy ℕ) (no_elements ℕ) (λ b. Unit {0})
        (λ u. Unit {0}) (bool-IsCodec zero_copy without none) (no_elements-IsCodec without none))

-- Lengths of one byte; a string is the list of its bytes.
abbrev optional : ℕ → List ℕ → Option (Option Bytes)
optional a [] = some none
optional a (tag ∷ []) = none
optional a (tag ∷ (n ∷ b)) = some (some (at (a + 1 + 1) b))

abbrev one_of : ℕ → List ℕ → Option (Option (ProtoResultType (List ℕ)))
one_of a [] = some none
one_of a (tag ∷ []) = none
one_of a (tag ∷ (n ∷ b)) =
    some (some (if eqb tag 10 then ok_bytes (at (a + 1 + 1) b) else err_text b))

abbrev prost : Prost (List ℕ)
prost = record {
  encode_varint = λ n. n ∷ [];
  length_delimiter_len = λ n. 1;
  key_len = λ tag. 1;
  as_bytes = λ s. s;
  decode_option = λ b. optional b.address b.content;
  decode_result = λ b. one_of b.address b.content;
  length-encode_varint = λ n. refl;
  key_len-one = refl;
  decode_option-none = λ a. refl;
  decode_option-some = λ a b. refl;
  decode_result-ok = λ a b. refl;
  decode_result-err = λ a s. refl;
}

result-IsCodec_example :
    IsCodec none
      (result prost (number zero_copy ℕ 2) (λ e. e) (λ s. s))
      without
      (FitsResult prost without none (number zero_copy ℕ 2) (λ e. e) (λ s. s) (λ v. v < size 2))
result-IsCodec_example =
    result-IsCodec prost without none (number zero_copy ℕ 2) (λ e. e) (λ s. s) (λ v. v < size 2)
      (number-IsCodec zero_copy without none 2)

abbrev adaptor : ActorAdaptor
adaptor = record { tag = 3; result_senders = (2, (50, 10)) ∷ [] }

abbrev sent : Frame → Result (Unit {0}) ℕ
sent frame = ok tt

parse-send_example :
    (parse messages
        (response messages 3 (payload 33))
        (send messages 1 2 (payload 5) 60 100 sent adaptor).0).1
      ≡ ok none
    × ((parse messages
          (response messages 3 (payload 33))
          (send messages 1 2 (payload 5) 60 100 sent adaptor).0).2
        ≡ some (60, payload 33))
    × ((parse messages
          (response messages 3 (payload 34))
          (parse messages
            (response messages 3 (payload 33))
            (send messages 1 2 (payload 5) 60 100 sent adaptor).0).0).2
        ≡ none)
    × (parse messages
          (refusal messages 3 "lost")
          (send messages 1 2 (payload 5) 60 100 sent adaptor).0
        ≡ ((send messages 1 2 (payload 5) 60 100 sent adaptor).0, err (remote "lost"), none))
parse-send_example =
    parse-send messages 1 2 (payload 5) 60 100 sent adaptor (payload 33) (payload 34) "lost"
