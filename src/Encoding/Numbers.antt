-- ===== src/Encoding/Numbers.antt =====
-- acktor/src/codec/default_codec.rs: numbers of a fixed width.
pub mod Vectors
use acktor.Base.{
  ℕ, zero, suc, ◌+◌, ◌*◌, ◌/◌, ◌%◌, ◌≤◌, ◌<◌, ◌≡◌, refl, ap, sym, ◌∙◌, Bool, true, false, ◌&&◌, not,
  Option, none, some, List, [], ◌∷◌, ◌++◌, Result, ok, err, arith, length, if◌then◌else◌, eqb, ltb,
  eqb_iff,
}
use acktor.Codec.{
  EncodeContext, DecodeContext, EncodeError, DecodeError, malformed, invalid_value, and_then, ok_or,
}
use acktor.Encoding.Memory.{Zerocopy, size, length-as_bytes, read_from_bytes-as_bytes}
use acktor.Encoding.{Bytes, at, Codable, IsCodec, Written}

abbrev pub byte_of : Bool → ℕ
byte_of false = 0
byte_of true = 1

module _ (z : Zerocopy) (G : Type 0) where
  abbrev pub read : ℕ → Bytes → Result ℕ DecodeError
  read n b = ok_or (z.read_from_bytes n b) malformed

  -- `i8` to `u64`, `f32` and `f64`, of `n` bytes.
  unfoldable pub number : ℕ → Codable G ℕ
  number n = record {
    encoded_len = λ v. n;
    encode = λ ctx v. ok (z.as_bytes n v);
    decode = λ ctx b. read n b;
  }

  unfoldable pub unit : Codable G (Unit {0})
  unit = record { encoded_len = λ u. 0; encode = λ ctx u. ok []; decode = λ ctx b. ok tt }

  unfoldable pub bool : Codable G Bool
  bool = record {
    encoded_len = λ b. 1;
    encode = λ ctx b. ok (z.as_bytes 1 (byte_of b));
    decode = λ ctx b. and_then (read 1 b) (λ v. ok (not (eqb v 0)));
  }

  abbrev pub try_from : ℕ → ℕ → Result ℕ DecodeError
  try_from limit v = if ltb v limit then ok v else err invalid_value

  -- `usize` where it has fewer than `limit` values: it is sent as a `u64`.
  unfoldable pub usize : ℕ → Codable G ℕ
  usize limit = record {
    encoded_len = λ v. 8;
    encode = λ ctx v. ok (z.as_bytes 8 v);
    decode = λ ctx b. and_then (read 8 b) (try_from limit);
  }

module _ (z : Zerocopy) {G : Type 0} (there : Option (EncodeContext G))
    (here : Option DecodeContext) where
  pub read-as_bytes : (n v a : ℕ) → v < size n → read z G n (at a (z.as_bytes n v)) ≡ ok v
  read-as_bytes n v a h = ap (λ o. ok_or o malformed) (read_from_bytes-as_bytes z n v a h)

  pub number-IsCodec : (n : ℕ) → IsCodec here (number z G n) there (λ v. v < size n)
  unfolding number
  number-IsCodec n = record { written = λ v h. (length-as_bytes z n v, λ a. read-as_bytes n v a h) }

  pub bool-IsCodec : IsCodec here (bool z G) there (λ b. Unit {0})
  unfolding bool
  bool-IsCodec = record { written = go }
    where
      go : (b : Bool) → Unit {0} → Written here (bool z G) b ((bool z G).encode there b)
      go true u = (
        length-as_bytes z 1 1,
        λ a. ap (λ r. and_then r (λ v. ok (not (eqb v 0)))) (read-as_bytes 1 1 a (omega arith)),
      )
      go false u = (
        length-as_bytes z 1 0,
        λ a. ap (λ r. and_then r (λ v. ok (not (eqb v 0)))) (read-as_bytes 1 0 a (omega arith)),
      )

  -- Of the numbers that the machine has.
  pub usize-IsCodec :
      (limit : ℕ) → limit ≤ size 8 → IsCodec here (usize z G limit) there (λ v. v < limit)
  unfolding usize
  usize-IsCodec limit h = record {
    written = λ v f. (
      length-as_bytes z 8 v,
      λ a. ap (λ r. and_then r (try_from z G limit)) (read-as_bytes 8 v a (lt f h)) ∙ fits v f,
    );
  }
    where
      lt : {v k : ℕ} → v < limit → limit ≤ k → v < k
      lt f h = omega arith

      fits : (v : ℕ) → v < limit → try_from z G limit v ≡ ok v
      fits v f = ground arith
