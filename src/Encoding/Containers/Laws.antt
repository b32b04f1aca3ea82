-- ===== src/Encoding/Containers/Laws.antt =====
-- acktor/src/codec/common_codec.rs: what is written of an option or a result is read back.
use acktor.Base.{
  ℕ, ◌+◌, ◌≡◌, refl, ap, sym, ◌∙◌, Option, none, some, List, Result, ok, err, arith, length,
  length-append,
}
use acktor.Codec.{
  EncodeContext, DecodeContext, EncodeError, DecodeError, malformed, and_then, ok_or,
}
use acktor.Encoding.{at, Codable, IsCodec, Written}
use acktor.Encoding.Containers.{
  Prost, optional_length_delimited_field_encoded_len, field, option, option_of, result, result_of,
}

module _ {Str : Type 0} (p : Prost Str) {G T : Type 0} (there : Option (EncodeContext G))
    (here : Option DecodeContext) (c : Codable G T) where
  abbrev pub FitsOption : (T → Type 0) → Option T → Type 0
  FitsOption F none = Unit
  FitsOption F (some t) = F t

  -- A field is as long as the code computes, if the bytes in it are as long as they say.
  length-field :
      (n len : ℕ) (b : List ℕ)
      → length b ≡ len
      → length (field p n len b) ≡ optional_length_delimited_field_encoded_len p 1 len
  unfolding optional_length_delimited_field_encoded_len
  length-field n len b e =
      omega
        (arith, length-append (p.encode_varint len) b, p.length-encode_varint len, p.key_len-one, e)

  -- Where the bytes of a field lie.
  abbrev start : ℕ → List ℕ → ℕ
  start a b = a + 1 + p.length_delimiter_len (length b)

  option-Written :
      (t : T) (o : Result (List ℕ) (EncodeError G))
      → Written here c t o
      → Written here (option p c) (some t) (and_then o (λ b. ok (field p 1 (c.encoded_len t) b)))
  unfolding option
  option-Written t (err e) w = tt
  option-Written t (ok b) w = (
    length-field 1 (c.encoded_len t) b w.0,
    λ a.
        ap
          (λ n.
            and_then (ok_or (p.decode_option (at a (field p 1 n b))) malformed)
              (option_of p c here))
          (sym w.0)
        ∙ ap (λ o. and_then (ok_or o malformed) (option_of p c here)) (p.decode_option-some a b)
        ∙ ap just (w.1 (start a b)),
  )
    where
      just : Result T DecodeError → Result (Option T) DecodeError
      just o = and_then o (λ u. ok (some u))

  -- An option keeps the contract of codecs if what it may hold does: the message that is written by
  -- hand is as long as it says, and it is read back wherever it lies.
  pub option-IsCodec :
      (F : T → Type 0) → IsCodec here c there F → IsCodec here (option p c) there (FitsOption F)
  unfolding option
  option-IsCodec F ic = record { written = go }
    where
      go :
          (o : Option T)
          → FitsOption F o
          → Written here (option p c) o ((option p c).encode there o)
      go none f = (
        refl,
        λ a. ap (λ o. and_then (ok_or o malformed) (option_of p c here)) (p.decode_option-none a),
      )
      go (some t) f = option-Written t (c.encode there t) (ic.written t f)

  module _ {E : Type 0} (to_string : E → Str) (from : Str → E) where
    -- The error is written as its text, so it must be what is made of its text.
    abbrev pub FitsResult : (T → Type 0) → Result T E → Type 0
    FitsResult F (ok t) = F t
    FitsResult F (err e) = from (to_string e) ≡ e

    result-Written :
        (t : T) (o : Result (List ℕ) (EncodeError G))
        → Written here c t o
        → Written here
            (result p c to_string from)
            (ok t)
            (and_then o (λ b. ok (field p 1 (c.encoded_len t) b)))
    unfolding result
    result-Written t (err e) w = tt
    result-Written t (ok b) w = (
      length-field 1 (c.encoded_len t) b w.0,
      λ a.
          ap
            (λ n.
              and_then (ok_or (p.decode_result (at a (field p 1 n b))) malformed)
                (result_of p c to_string from here))
            (sym w.0)
          ∙ ap (λ o. and_then (ok_or o malformed) (result_of p c to_string from here))
              (p.decode_result-ok a b)
          ∙ ap right (w.1 (start a b)),
    )
      where
        right : Result T DecodeError → Result (Result T E) DecodeError
        right o = and_then o (λ u. ok (ok u))

    -- A result keeps the contract of codecs if its value does, for the errors that are what is made of
    -- their texts: the message that is written by hand is as long as it says, and it is read back
    -- wherever it lies.
    pub result-IsCodec :
        (F : T → Type 0)
        → IsCodec here c there F
        → IsCodec here (result p c to_string from) there (FitsResult F)
    unfolding result
    result-IsCodec F ic = record { written = go }
      where
        go :
            (r : Result T E)
            → FitsResult F r
            → Written here
                (result p c to_string from)
                r
                ((result p c to_string from).encode there r)
        go (ok t) f = result-Written t (c.encode there t) (ic.written t f)
        go (err e) f = (
          length-field 2 (length (p.as_bytes (to_string e))) (p.as_bytes (to_string e)) refl,
          λ a.
              ap (λ o. and_then (ok_or o malformed) (result_of p c to_string from here))
                (p.decode_result-err a (to_string e))
              ∙ ap (λ e. ok (err e)) f,
        )
