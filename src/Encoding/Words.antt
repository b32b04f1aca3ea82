-- ===== src/Encoding/Words.antt =====
-- acktor/src/codec/default_codec.rs: the signed machine word, lists of machine words and of Booleans,
-- and strings; acktor/src/codec/common_codec.rs: boxes.
use acktor.Base.{
  ℕ, suc, ◌-◌, ◌*◌, ◌≤◌, ◌<◌, ◌⊎◌, inl, inr, ◌≡◌, refl, ap, ◌∙◌, Bool, true, false, ◌||◌, not,
  Option, some, List, [], ◌∷◌, Result, ok, err, arith, length, if◌then◌else◌, eqb, ltb, leb,
}
use acktor.Codec.{
  EncodeContext, DecodeContext, DecodeError, malformed, invalid_value, and_then, ok_or,
}
use acktor.Encoding.{Bytes, Codable, IsCodec, Written}
use acktor.Encoding.Memory.{Zerocopy, size, length-as_bytes}
use acktor.Encoding.Numbers.{read, read-as_bytes, byte_of}
use acktor.Encoding.Numbers.Vectors.{is_empty, from_bytes, vector}

-- `isize::try_from` where the word has `half` values below zero; a negative number is known by the
-- value of the bytes that its `i64` has.
abbrev pub try_from_signed : ℕ → ℕ → Result ℕ DecodeError
try_from_signed half v = if ltb v half || leb (size 8 - half) v then ok v else err invalid_value

abbrev pub collect : (ℕ → Result ℕ DecodeError) → List ℕ → Result (List ℕ) DecodeError
collect f [] = ok []
collect f (v ∷ vs) = and_then (f v) (λ w. and_then (collect f vs) (λ ws. ok (w ∷ ws)))

abbrev pub bytes_of : List Bool → List ℕ
bytes_of [] = []
bytes_of (b ∷ bs) = byte_of b ∷ bytes_of bs

abbrev pub bools_of : List ℕ → List Bool
bools_of [] = []
bools_of (b ∷ bs) = not (eqb b 0) ∷ bools_of bs

-- The strings of the standard library, with their bytes.
pub record Utf8 (Str : Type 0) : Type 0 where
  pub as_bytes : Str → List ℕ
  -- `None` is an error.
  pub from_utf8 : List ℕ → Option Str
  pub from_utf8-as_bytes : (s : Str) → from_utf8 (as_bytes s) ≡ some s

module _ (z : Zerocopy) (G : Type 0) where
  unfoldable pub isize : ℕ → Codable G ℕ
  isize half = record {
    encoded_len = λ v. 8;
    encode = λ ctx v. ok (z.as_bytes 8 v);
    decode = λ ctx b. and_then (read z G 8 b) (try_from_signed half);
  }

  -- `Vec<isize>` and `Vec<usize>`, by the conversion of one word.
  unfoldable pub words : (ℕ → Result ℕ DecodeError) → Codable G (List ℕ)
  words convert = record {
    encoded_len = λ vs. length vs * 8;
    encode = λ ctx vs. ok (z.slice_as_bytes 8 vs);
    decode = λ ctx b.
        if is_empty b.content then ok [] else and_then (from_bytes z G 8 b) (collect convert);
  }

module _ (G : Type 0) where
  unfoldable pub bools : Codable G (List Bool)
  bools = record {
    encoded_len = λ bs. length bs;
    encode = λ ctx bs. ok (bytes_of bs);
    decode = λ ctx b. if is_empty b.content then ok [] else ok (bools_of b.content);
  }

  unfoldable pub string : {Str : Type 0} → Utf8 Str → Codable G Str
  string u = record {
    encoded_len = λ s. length (u.as_bytes s);
    encode = λ ctx s. ok (u.as_bytes s);
    decode = λ ctx b. ok_or (u.from_utf8 b.content) malformed;
  }

  -- `Box` and `Arc`, which are known by what they hold.
  unfoldable pub boxed : {T : Type 0} → Codable G T → Codable G T
  boxed c = record {
    encoded_len = λ t. c.encoded_len t;
    encode = λ ctx t. c.encode ctx t;
    decode = λ ctx b. c.decode ctx b;
  }

module _ (z : Zerocopy) {G : Type 0} (there : Option (EncodeContext G))
    (here : Option DecodeContext) where
  -- Of the numbers that the machine has.
  pub isize-IsCodec :
      (half : ℕ)
      → half ≤ size 8
      → IsCodec here (isize z G half) there (λ v. (v < size 8) × ((v < half) ⊎ (size 8 - half ≤ v)))
  unfolding isize
  isize-IsCodec half h = record {
    written = λ v f. (
      length-as_bytes z 8 v,
      λ a.
          ap (λ r. and_then r (try_from_signed half)) (read-as_bytes z there here 8 v a f.0)
          ∙ fits v f.1,
    );
  }
    where
      fits : (v : ℕ) → (v < half) ⊎ (size 8 - half ≤ v) → try_from_signed half v ≡ ok v
      fits v (inl f) = ground arith
      fits v (inr f) = ground arith

  -- Machine words are numbers of 64 bits, each of which is then converted.
  pub decode-words :
      (convert : ℕ → Result ℕ DecodeError) (b : Bytes)
      → (words z G convert).decode here b
        ≡ and_then ((vector z G 8).decode here b) (collect convert)
  unfolding words vector from_bytes
  decode-words convert b = go (is_empty b.content)
    where
      go :
          (e : Bool)
          → (if e then ok [] else and_then (from_bytes z G 8 b) (collect convert))
            ≡ and_then (if e then ok [] else from_bytes z G 8 b) (collect convert)
      go true = refl
      go false = refl

module _ {G : Type 0} (there : Option (EncodeContext G)) (here : Option DecodeContext) where
  length-bytes_of : (bs : List Bool) → length (bytes_of bs) ≡ length bs
  length-bytes_of [] = refl
  length-bytes_of (b ∷ bs) = ap suc (length-bytes_of bs)

  bools_of-bytes_of : (bs : List Bool) → bools_of (bytes_of bs) ≡ bs
  bools_of-bytes_of [] = refl
  bools_of-bytes_of (true ∷ bs) = ap (λ l. true ∷ l) (bools_of-bytes_of bs)
  bools_of-bytes_of (false ∷ bs) = ap (λ l. false ∷ l) (bools_of-bytes_of bs)

  pub bools-IsCodec : IsCodec here (bools G) there (λ bs. Unit {0})
  unfolding bools
  bools-IsCodec = record { written = go }
    where
      go : (bs : List Bool) → Unit {0} → Written here (bools G) bs ((bools G).encode there bs)
      go [] u = (refl, λ a. refl)
      go (b ∷ bs) u = (length-bytes_of (b ∷ bs), λ a. ap (λ l. ok l) (bools_of-bytes_of (b ∷ bs)))

  pub string-IsCodec :
      {Str : Type 0} (u : Utf8 Str) → IsCodec here (string G u) there (λ s. Unit {0})
  unfolding string
  string-IsCodec u = record {
    written = λ s f. (refl, λ a. ap (λ o. ok_or o malformed) (u.from_utf8-as_bytes s));
  }
