-- ===== src/Encoding/Containers.antt =====
-- acktor/src/codec/common_codec.rs and acktor/src/codec/protobuf_helper.rs: options and results,
-- which are written by hand as the protobuf messages that the prost crate reads.
pub mod Laws
use acktor.Base.{
  ℕ, zero, suc, ◌+◌, ◌≡◌, refl, ap, sym, ◌∙◌, Option, none, some, List, [], ◌∷◌, ◌++◌, Result, ok,
  err, arith, length,
}
use acktor.Codec.{
  EncodeContext, DecodeContext, EncodeError, DecodeError, malformed, missing_field, and_then, ok_or,
}
use acktor.Encoding.{Bytes, at, Codable, IsCodec, Written}

-- `LENGTH_DELIMITED_TAGS`, by the number of the field.
abbrev pub length_delimited_tags : List ℕ
length_delimited_tags =
    0 ∷ 10 ∷ 18 ∷ 26 ∷ 34 ∷ 42 ∷ 50 ∷ 58 ∷ 66 ∷ 74 ∷ 82 ∷ 90 ∷ 98 ∷ 106 ∷ 114 ∷ 122 ∷ []

abbrev pub nth : List ℕ → ℕ → ℕ
nth [] i = 0
nth (x ∷ xs) zero = x
nth (x ∷ xs) (suc i) = nth xs i

-- `ProtoResultType`, the message of `ProtoResult`.
pub data ProtoResultType (Str : Type 0) : Type 0 where
  ok_bytes : Bytes → ProtoResultType Str
  err_text : Str → ProtoResultType Str

-- Of the prost crate: its lengths and numbers, and how it reads the two messages. A field that is
-- written behind its tag and its length is read as the part of the buffer where it lies. `Str` are the
-- strings of the standard library, with their bytes.
pub record Prost (Str : Type 0) : Type 0 where
  pub encode_varint : ℕ → List ℕ
  pub length_delimiter_len : ℕ → ℕ
  pub key_len : ℕ → ℕ
  pub as_bytes : Str → List ℕ
  -- `None` is an error of the decoder.
  pub decode_option : Bytes → Option (Option Bytes)
  pub decode_result : Bytes → Option (Option (ProtoResultType Str))
  pub length-encode_varint : (n : ℕ) → length (encode_varint n) ≡ length_delimiter_len n
  pub key_len-one : key_len 1 ≡ 1
  pub decode_option-none : (a : ℕ) → decode_option (at a []) ≡ some none
  pub decode_option-some :
      (a : ℕ) (b : List ℕ)
      → decode_option (at a (10 ∷ encode_varint (length b) ++ b))
        ≡ some (some (at (a + 1 + length_delimiter_len (length b)) b))
  pub decode_result-ok :
      (a : ℕ) (b : List ℕ)
      → decode_result (at a (10 ∷ encode_varint (length b) ++ b))
        ≡ some (some (ok_bytes (at (a + 1 + length_delimiter_len (length b)) b)))
  pub decode_result-err :
      (a : ℕ) (s : Str)
      → decode_result (at a (18 ∷ encode_varint (length (as_bytes s)) ++ as_bytes s))
        ≡ some (some (err_text s))

module _ {Str : Type 0} (p : Prost Str) where
  -- acktor-ipc-proto/src/lib.rs.
  unfoldable pub optional_length_delimited_field_encoded_len : ℕ → ℕ → ℕ
  optional_length_delimited_field_encoded_len tag value_len =
      p.key_len tag + p.length_delimiter_len value_len + value_len

  -- The tag of the field, the length, and the bytes.
  abbrev pub field : ℕ → ℕ → List ℕ → List ℕ
  field number len b = nth length_delimited_tags number ∷ p.encode_varint len ++ b

  module _ {G T : Type 0} (c : Codable G T) where
    abbrev pub option_len : Option T → ℕ
    option_len none = 0
    option_len (some t) = optional_length_delimited_field_encoded_len 1 (c.encoded_len t)

    abbrev pub encode_option : Option (EncodeContext G) → Option T → Result (List ℕ) (EncodeError G)
    encode_option ctx none = ok []
    encode_option ctx (some t) = and_then (c.encode ctx t) (λ b. ok (field 1 (c.encoded_len t) b))

    abbrev pub option_of : Option DecodeContext → Option Bytes → Result (Option T) DecodeError
    option_of ctx none = ok none
    option_of ctx (some b) = and_then (c.decode ctx b) (λ t. ok (some t))

    -- `encode_to_bytes` writes the same into a buffer of its own.
    unfoldable pub option : Codable G (Option T)
    unfolding optional_length_delimited_field_encoded_len
    option = record {
      encoded_len = option_len;
      encode = encode_option;
      decode = λ ctx b. and_then (ok_or (p.decode_option b) malformed) (option_of ctx);
    }

    -- `to_string` of the error's `Display`, and its `From<String>`.
    module _ {E : Type 0} (to_string : E → Str) (from : Str → E) where
      abbrev pub result_len : Result T E → ℕ
      result_len (ok t) = optional_length_delimited_field_encoded_len 1 (c.encoded_len t)
      result_len (err e) =
          optional_length_delimited_field_encoded_len 1 (length (p.as_bytes (to_string e)))

      abbrev pub encode_result :
          Option (EncodeContext G) → Result T E → Result (List ℕ) (EncodeError G)
      encode_result ctx (ok t) = and_then (c.encode ctx t) (λ b. ok (field 1 (c.encoded_len t) b))
      encode_result ctx (err e) = let s = p.as_bytes (to_string e) in ok (field 2 (length s) s)

      abbrev pub result_of :
          Option DecodeContext → Option (ProtoResultType Str) → Result (Result T E) DecodeError
      result_of ctx none = err (missing_field "result")
      result_of ctx (some (ok_bytes b)) = and_then (c.decode ctx b) (λ t. ok (ok t))
      result_of ctx (some (err_text s)) = ok (err (from s))

      unfoldable pub result : Codable G (Result T E)
      unfolding optional_length_delimited_field_encoded_len
      result = record {
        encoded_len = result_len;
        encode = encode_result;
        decode = λ ctx b. and_then (ok_or (p.decode_result b) malformed) (result_of ctx);
      }
