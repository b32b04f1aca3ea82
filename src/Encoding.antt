-- ===== src/Encoding.antt =====
-- The traits `Encode` and `Decode` of acktor/src/codec.rs, with what an implementation promises.
pub mod Memory
pub mod Numbers
pub mod Words
pub mod Tuples
pub mod Containers
use acktor.Base.{ℕ, ◌≡◌, List, Option, Result, ok, err, length}
use acktor.Codec.{EncodeContext, DecodeContext, EncodeError, DecodeError}

-- `Bytes`: the content, and the address where it lies, which some decoders look at.
pub record Bytes : Type 0 where
  pub address : ℕ
  pub content : List ℕ

abbrev pub at : ℕ → List ℕ → Bytes
at address content = record { address = address; content = content }

-- `encode` gives the bytes that it appends to the buffer.
pub record Codable (G T : Type 0) : Type 0 where
  pub encoded_len : T → ℕ
  pub encode : Option (EncodeContext G) → T → Result (List ℕ) (EncodeError G)
  pub decode : Option DecodeContext → Bytes → Result T DecodeError

module _ {G T : Type 0} (here : Option DecodeContext) (c : Codable G T) where
  -- What is written of a value is as long as it says, and is read back wherever the bytes lie.
  abbrev pub Written : T → Result (List ℕ) (EncodeError G) → Type 0
  Written t (ok b) =
      (length b ≡ c.encoded_len t) × ((address : ℕ) → c.decode here (at address b) ≡ ok t)
  Written t (err e) = Unit

  -- So it is for the values that fit; an encoding may fail.
  pub record IsCodec (there : Option (EncodeContext G)) (Fits : T → Type 0) : Type 0 where
    pub written : (t : T) → Fits t → Written t (c.encode there t)
