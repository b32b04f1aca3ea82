-- ===== src/Encoding/Tuples.antt =====
-- acktor/src/codec/default_codec.rs: tuples, whose elements are written one after the other, each
-- behind its length.
use acktor.Base.{
  ℕ, ◌+◌, ◌%◌, ◌^◌, ◌<◌, ◌≡◌, refl, ap, ◌∙◌, false, Option, List, [], ◌++◌, Result, ok, err, arith,
  length, take, drop, take_front, drop_front, length-append, if◌then◌else◌, ltb,
}
use mathlib.Core.Path.{ap₂}
use mathlib.Core.List.{append_assoc}
use acktor.Codec.{
  EncodeContext, DecodeContext, EncodeError, DecodeError, malformed, missing_field, ok_or, and_then,
}
use acktor.Encoding.{Bytes, at, Codable, IsCodec, Written}
use acktor.Encoding.Memory.{Zerocopy, length-as_bytes, read_from_bytes-as_bytes}

-- The length is written as a `u32`, which holds its remainder only.
abbrev pub len_of : ℕ → ℕ
len_of n = n % 2 ^ 32

module _ (z : Zerocopy) {G T : Type 0} (c : Codable G T) where
  unfoldable pub encode_element : Option (EncodeContext G) → T → Result (List ℕ) (EncodeError G)
  encode_element ctx t =
      and_then (c.encode ctx t) (λ b. ok (z.as_bytes 4 (len_of (c.encoded_len t)) ++ b))

-- `split_to`: the front of the buffer, and the rest.
abbrev pub split_to : ℕ → Bytes → Bytes × Bytes
split_to n b = (at b.address (take n b.content), at (b.address + n) (drop n b.content))

abbrev pub split_data : ℕ → Bytes → Result (Bytes × Bytes) DecodeError
split_data n b =
    if ltb (length b.content) n
    then err (missing_field "the tuple element data")
    else ok (split_to n b)

module _ (z : Zerocopy) where
  unfoldable pub decode_element : Bytes → Result (Bytes × Bytes) DecodeError
  decode_element b =
      let parts = split_to 4 b in
      if ltb (length b.content) 4
      then err (missing_field "the tuple element length")
      else and_then (ok_or (z.read_from_bytes 4 parts.0) malformed) (λ len. split_data len parts.1)

-- A tuple is made of an element and the tuple of those that follow.
module _ (G : Type 0) where
  unfoldable pub no_elements : Codable G (Unit {0})
  no_elements = record { encoded_len = λ u. 0; encode = λ ctx u. ok []; decode = λ ctx b. ok tt }

module _ (z : Zerocopy) {G T R : Type 0} (c : Codable G T) (r : Codable G R) where
  abbrev pub decode_rest : Option DecodeContext → Bytes × Bytes → Result (T × R) DecodeError
  decode_rest ctx (element, rest) =
      and_then (c.decode ctx element) (λ t. and_then (r.decode ctx rest) (λ ts. ok (t, ts)))

  unfoldable pub element : Codable G (T × R)
  unfolding encode_element decode_element
  element = record {
    encoded_len = λ t. 4 + c.encoded_len t.0 + r.encoded_len t.1;
    encode = λ ctx t.
        and_then (encode_element z c ctx t.0)
          (λ b. and_then (r.encode ctx t.1) (λ bs. ok (b ++ bs)));
    decode = λ ctx b. and_then (decode_element z b) (decode_rest ctx);
  }

split_data-append :
    (b rest : List ℕ) (a n : ℕ)
    → length b ≡ n
    → split_data n (at a (b ++ rest)) ≡ ok (at a b, at (a + n) rest)
split_data-append b rest a n e =
    ap
      (λ t.
        if t
        then err (missing_field "the tuple element data")
        else ok (split_to n (at a (b ++ rest))))
      enough
    ∙ ap₂ (λ x y. ok (at a x, at (a + n) y)) (take_front n b rest e) (drop_front n b rest e)
  where
    enough : ltb (length (b ++ rest)) n ≡ false
    enough = ground (arith, length-append b rest)

-- An element is found behind its length, and what follows it is left.
decode_element-append :
    (z : Zerocopy) (b rest : List ℕ) (a n : ℕ)
    → length b ≡ n
    → n < 2 ^ 32
    → decode_element z (at a ((z.as_bytes 4 (len_of n) ++ b) ++ rest))
      ≡ ok (at (a + 4) b, at (a + 4 + n) rest)
unfolding decode_element
decode_element-append z b rest a n e h =
    ap (λ l. decode_element z (at a l)) (append_assoc head b rest)
    ∙ ap
        (λ t.
          if t then err (missing_field "the tuple element length") else after (split_to 4 whole))
        long
    ∙ ap₂ (λ x y. after (at a x, at (a + 4) y)) (take_front 4 head (b ++ rest) four)
        (drop_front 4 head (b ++ rest) four)
    ∙ ap (λ o. and_then (ok_or o malformed) (λ len. split_data len (at (a + 4) (b ++ rest))))
        (read_from_bytes-as_bytes z 4 (len_of n) a (omega arith))
    ∙ ap (λ k. split_data k (at (a + 4) (b ++ rest))) fits
    ∙ split_data-append b rest (a + 4) n e
  where
    head : List ℕ
    head = z.as_bytes 4 (len_of n)

    whole : Bytes
    whole = at a (head ++ (b ++ rest))

    four : length head ≡ 4
    four = length-as_bytes z 4 (len_of n)

    after : Bytes × Bytes → Result (Bytes × Bytes) DecodeError
    after parts =
        and_then (ok_or (z.read_from_bytes 4 parts.0) malformed) (λ len. split_data len parts.1)

    long : ltb (length (head ++ (b ++ rest))) 4 ≡ false
    long = ground (arith, length-append head (b ++ rest), four)

    fits : len_of n ≡ n
    fits = omega arith

module _ (z : Zerocopy) {G T R : Type 0} (there : Option (EncodeContext G))
    (here : Option DecodeContext) (c : Codable G T) (r : Codable G R) where
  -- The element fits, and so does its length.
  abbrev pub FitsBoth : (T → Type 0) → (R → Type 0) → T × R → Type 0
  FitsBoth F H (t, ts) = F t × (c.encoded_len t < 2 ^ 32) × H ts

  append-Written :
      (t : T) (ts : R) (b : List ℕ)
      → c.encoded_len t < 2 ^ 32
      → Written here c t (ok b)
      → (o : Result (List ℕ) (EncodeError G)) → Written here r ts o
      → Written here
          (element z c r)
          (t, ts)
          (and_then o (λ bs. ok ((z.as_bytes 4 (len_of (c.encoded_len t)) ++ b) ++ bs)))
  unfolding element
  append-Written t ts b h w (err e) v = tt
  append-Written t ts b h w (ok bs) v = (
    omega (
      arith,
      length-append (z.as_bytes 4 (len_of (c.encoded_len t)) ++ b) bs,
      length-append (z.as_bytes 4 (len_of (c.encoded_len t))) b,
      length-as_bytes z 4 (len_of (c.encoded_len t)),
      w.0,
      v.0,
    ),
    λ a.
        ap (λ o. and_then o (decode_rest z c r here))
          (decode_element-append z b bs a (c.encoded_len t) w.0 h)
        ∙ ap (first a) (w.1 (a + 4))
        ∙ ap second (v.1 (a + 4 + c.encoded_len t)),
  )
    where
      second : Result R DecodeError → Result (T × R) DecodeError
      second o = and_then o (λ us. ok (t, us))

      first : ℕ → Result T DecodeError → Result (T × R) DecodeError
      first a o =
          and_then o
            (λ u. and_then (r.decode here (at (a + 4 + c.encoded_len t) bs)) (λ us. ok (u, us)))

  element-Written :
      (t : T) (ts : R)
      → c.encoded_len t < 2 ^ 32
      → (o : Result (List ℕ) (EncodeError G)) → Written here c t o
      → Written here r ts (r.encode there ts)
      → Written here
          (element z c r)
          (t, ts)
          (and_then
            (and_then o (λ b. ok (z.as_bytes 4 (len_of (c.encoded_len t)) ++ b)))
            (λ b. and_then (r.encode there ts) (λ bs. ok (b ++ bs))))
  element-Written t ts h (err e) w v = tt
  element-Written t ts h (ok b) w v = append-Written t ts b h w (r.encode there ts) v

  -- A tuple keeps the contract of codecs if its elements do: it is as long as it says, and it is
  -- read back wherever its bytes lie, element by element, if the length of each is a `u32`.
  pub element-IsCodec :
      (F : T → Type 0) (H : R → Type 0)
      → IsCodec here c there F
      → IsCodec here r there H
      → IsCodec here (element z c r) there (FitsBoth F H)
  unfolding element encode_element
  element-IsCodec F H ic ir = record {
    written = λ (t, ts) (f, h, g).
        element-Written t ts h (c.encode there t) (ic.written t f) (ir.written ts g);
  }

module _ {G : Type 0} (there : Option (EncodeContext G)) (here : Option DecodeContext) where
  -- The end of every tuple.
  pub no_elements-IsCodec : IsCodec here (no_elements G) there (λ u. Unit {0})
  unfolding no_elements
  no_elements-IsCodec = record { written = λ u f. (refl, λ a. refl) }
