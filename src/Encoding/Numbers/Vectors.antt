-- ===== src/Encoding/Numbers/Vectors.antt =====
-- acktor/src/codec/default_codec.rs: lists of numbers of a fixed width, whose decoder looks at the
-- memory as it lies.
use acktor.Base.{
  ℕ, zero, suc, ◌*◌, ◌%◌, ◌<◌, ◌≡◌, refl, ap, ◌∙◌, Bool, true, false, ◌||◌, Option, none, some,
  List, [], ◌∷◌, Result, ok, err, arith, length, if◌then◌else◌, eqb,
}
use acktor.Codec.{EncodeContext, DecodeContext, DecodeError, malformed, ok_or}
use acktor.Encoding.{Bytes, at, Codable}
use acktor.Encoding.Memory.{Zerocopy, Fits, from_bytes-slice_as_bytes}

abbrev pub is_empty : {A : Type 0} → List A → Bool
is_empty [] = true
is_empty (x ∷ xs) = false

module _ (z : Zerocopy) (G : Type 0) where
  unfoldable pub from_bytes : ℕ → Bytes → Result (List ℕ) DecodeError
  from_bytes n b = ok_or (z.from_bytes n b) malformed

  unfoldable pub vector : ℕ → Codable G (List ℕ)
  unfolding from_bytes
  vector n = record {
    encoded_len = λ vs. length vs * n;
    encode = λ ctx vs. ok (z.slice_as_bytes n vs);
    decode = λ ctx b. if is_empty b.content then ok [] else from_bytes n b;
  }

  refused_or :
      (vs : List ℕ) (b : Bool)
      → ok_or (if b then some vs else none) malformed ≡ (if b then ok vs else err malformed)
  refused_or vs true = refl
  refused_or vs false = refl

  -- A list of numbers is read back where its bytes are aligned, or where it is empty, and it is
  -- refused where they are not.
  pub decode-encode_vector :
      (there : Option (EncodeContext G)) (here : Option DecodeContext) (n : ℕ) (vs : List ℕ) (a : ℕ)
      → 0 < n
      → Fits n vs
      → (bs : List ℕ) × ((vector n).encode there vs ≡ ok bs)
        × ((vector n).decode here (at a bs)
            ≡ (if is_empty vs || eqb (a % n) 0 then ok vs else err malformed))
  unfolding vector from_bytes
  decode-encode_vector there here n [] a h f = (
    z.slice_as_bytes n [],
    refl,
    ap (λ l. if is_empty l then ok [] else ok_or (z.from_bytes n (at a l)) malformed)
        (z.slice_as_bytes_lem n []),
  )
  decode-encode_vector there here zero (v ∷ vs) a h f = absurd (omega arith)
  decode-encode_vector there here (suc n) (v ∷ vs) a h f = (
    z.slice_as_bytes (suc n) (v ∷ vs),
    refl,
    ap
          (λ e.
            if e
            then ok []
            else ok_or (z.from_bytes (suc n) (at a (z.slice_as_bytes (suc n) (v ∷ vs)))) malformed)
          (ap is_empty (z.slice_as_bytes_lem (suc n) (v ∷ vs)))
        ∙ ap (λ o. ok_or o malformed) (from_bytes-slice_as_bytes z (suc n) (v ∷ vs) a h f)
        ∙ refused_or (v ∷ vs) (eqb (a % suc n) 0),
  )
