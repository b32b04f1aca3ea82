-- ===== src/Encoding/Memory.antt =====
-- How the numbers of acktor/src/codec/default_codec.rs lie in the memory of a little-endian machine,
-- and the views of the memory by the zerocopy crate, which is not in the repository: an interface.
use acktor.Base.{
  ℕ, zero, suc, ◌+◌, ◌*◌, ◌/◌, ◌%◌, ◌<◌, ◌≡◌, refl, ap, ◌∙◌, Bool, true, false, ◌&&◌, Option, none,
  some, List, [], ◌∷◌, ◌++◌, arith, length, take, drop, take_front, drop_front, length-append,
  if◌then◌else◌, eqb, eqb_iff,
}
use mathlib.Core.Path.{ap₂}
use native.Mathlib.Nat.{mul-div_cancel, mul-mod_left, suc-mul}
use acktor.Encoding.{Bytes, at}

-- How many values have `n` bytes.
abbrev pub size : ℕ → ℕ
size zero = 1
size (suc n) = 256 * size n

-- The bytes of the number whose `n` bytes have the value `v`, the lowest first. A signed number and
-- a float are known by the value of their bytes.
abbrev pub le_bytes : ℕ → ℕ → List ℕ
le_bytes zero v = []
le_bytes (suc n) v = v % 256 ∷ le_bytes n (v / 256)

abbrev pub value : List ℕ → ℕ
value [] = 0
value (b ∷ bs) = b + 256 * value bs

-- The bytes of a slice of numbers, and the `k` numbers of a slice.
abbrev pub layout : ℕ → List ℕ → List ℕ
layout n [] = []
layout n (v ∷ vs) = le_bytes n v ++ layout n vs

abbrev pub numbers : ℕ → ℕ → List ℕ → List ℕ
numbers n zero bs = []
numbers n (suc k) bs = value (take n bs) ∷ numbers n k (drop n bs)

-- `None` is an error. A view of one number is a copy, so it is taken at every address; a view of a
-- slice is the memory itself, which must be aligned by the width of the numbers.
pub record Zerocopy : Type 0 where
  pub as_bytes : ℕ → ℕ → List ℕ
  pub slice_as_bytes : ℕ → List ℕ → List ℕ
  pub read_from_bytes : ℕ → Bytes → Option ℕ
  pub from_bytes : ℕ → Bytes → Option (List ℕ)
  pub as_bytes_lem : (n v : ℕ) → as_bytes n v ≡ le_bytes n v
  pub slice_as_bytes_lem : (n : ℕ) (vs : List ℕ) → slice_as_bytes n vs ≡ layout n vs
  pub read_from_bytes_lem :
      (n : ℕ) (b : Bytes)
      → read_from_bytes n b ≡ (if eqb (length b.content) n then some (value b.content) else none)
  pub from_bytes_lem :
      (n : ℕ) (b : Bytes)
      → 0 < n
      → from_bytes n b ≡ (
          if eqb (b.address % n) 0 && eqb (length b.content % n) 0
          then some (numbers n (length b.content / n) b.content)
          else none)

pub length-le_bytes : (n v : ℕ) → length (le_bytes n v) ≡ n
length-le_bytes zero v = refl
length-le_bytes (suc n) v = ap suc (length-le_bytes n (v / 256))

pub value-le_bytes : (n v : ℕ) → v < size n → value (le_bytes n v) ≡ v
value-le_bytes zero v h = omega arith
value-le_bytes (suc n) v h = omega (arith, value-le_bytes n (v / 256) (omega arith))

length-layout : (n : ℕ) (vs : List ℕ) → length (layout n vs) ≡ length vs * n
length-layout n [] = omega arith
length-layout n (v ∷ vs) =
    length-append (le_bytes n v) (layout n vs)
    ∙ omega (arith, length-le_bytes n v, length-layout n vs, suc-mul (length vs) n)

-- Every number of the list has `n` bytes.
abbrev pub Fits : ℕ → List ℕ → Type 0
Fits n [] = Unit
Fits n (v ∷ vs) = (v < size n) × Fits n vs

numbers-layout : (n : ℕ) (vs : List ℕ) → Fits n vs → numbers n (length vs) (layout n vs) ≡ vs
numbers-layout n [] f = refl
numbers-layout n (v ∷ vs) (h, f) =
    ap₂ (λ x xs. x ∷ xs)
      (ap value (take_front n (le_bytes n v) (layout n vs) (length-le_bytes n v))
        ∙ value-le_bytes n v h)
      (ap (numbers n (length vs)) (drop_front n (le_bytes n v) (layout n vs) (length-le_bytes n v))
        ∙ numbers-layout n vs f)

module _ (z : Zerocopy) where
  pub length-as_bytes : (n v : ℕ) → length (z.as_bytes n v) ≡ n
  length-as_bytes n v = ap length (z.as_bytes_lem n v) ∙ length-le_bytes n v

  -- The bytes of a number are read as the number, at every address.
  pub read_from_bytes-as_bytes :
      (n v a : ℕ) → v < size n → z.read_from_bytes n (at a (z.as_bytes n v)) ≡ some v
  read_from_bytes-as_bytes n v a h =
      ap (λ l. z.read_from_bytes n (at a l)) (z.as_bytes_lem n v)
      ∙ z.read_from_bytes_lem n (at a (le_bytes n v))
      ∙ found
    where
      found : (if eqb (length (le_bytes n v)) n then some (value (le_bytes n v)) else none) ≡ some v
      found =
          ground
            (arith, length-le_bytes n v, value-le_bytes n v h, eqb_iff (length (le_bytes n v)) n)

  -- A slice of numbers is viewed where it is aligned, and nowhere else.
  pub from_bytes-slice_as_bytes :
      (n : ℕ) (vs : List ℕ) (a : ℕ)
      → 0 < n
      → Fits n vs
      → z.from_bytes n (at a (z.slice_as_bytes n vs)) ≡ (if eqb (a % n) 0 then some vs else none)
  from_bytes-slice_as_bytes n vs a h f =
      ap (λ l. z.from_bytes n (at a l)) (z.slice_as_bytes_lem n vs)
      ∙ z.from_bytes_lem n (at a (layout n vs)) h
      ∙ ap (λ l. view l (l % n) (l / n)) (length-layout n vs)
      ∙ ap₂ (view (length vs * n)) (mul-mod_left (length vs) n) (mul-div_cancel (length vs) h)
      ∙ ap (λ r. if eqb (a % n) 0 && true then some r else none) (numbers-layout n vs f)
      ∙ both (eqb (a % n) 0)
    where
      view : ℕ → ℕ → ℕ → Option (List ℕ)
      view l r k = if eqb (a % n) 0 && eqb r 0 then some (numbers n k (layout n vs)) else none

      both : (b : Bool) → (if b && true then some vs else none) ≡ (if b then some vs else none)
      both true = refl
      both false = refl
