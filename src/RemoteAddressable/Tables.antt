-- ===== src/RemoteAddressable/Tables.antt =====
-- What acktor-derive/src/remote_addressable.rs puts into a codec table, and the arms of its handler.
use acktor.Base.{
  ℕ, ◌≡◌, refl, ap, ◌∙◌, Bool, true, false, ◌||◌, Option, some, List, [], ◌∷◌, returned, arith, map,
  eqb, if◌then◌else◌,
}
use acktor.Base.Eq.{nat_eq}
use acktor.HashMap
use acktor.HashMap.Laws.{get-insert}
use acktor.Codec.{EncodeContext}
use acktor.Erased.{downcast_same}
use acktor.Address.{Messages}
use acktor.Address.Responses.{CodecTable}
use acktor.RemoteAddressable.{
  differs, uniqueness_check, expect_encode, codec_of, insert_all, codec_table, arm,
}

abbrev pub listed : ℕ → List ℕ → Bool
listed t [] = false
listed t (u ∷ us) = eqb u t || listed t us

module _ {B G : Type 0} (msgs : Messages B G) where
  open msgs use {Value, id, encode_to_bytes}

  get-insert_all :
      (t : ℕ) (ts : List ℕ) (m : CodecTable msgs)
      → HashMap.get t (insert_all msgs ts m)
        ≡ (if listed t ts then some (codec_of msgs t) else HashMap.get t m)
  get-insert_all t [] m = refl
  get-insert_all t (u ∷ us) m = ground (
    arith,
    get-insert_all t us (HashMap.insert u (codec_of msgs u) m),
    get-insert u t (codec_of msgs u) m,
    ap (codec_of msgs),
  )

  -- Each message of the list has its own codec in the table.
  pub get-codec_table :
      (t : ℕ) (ts : List ℕ)
      → listed t ts ≡ true
      → HashMap.get t (codec_table msgs ts) ≡ some (codec_of msgs t)
  unfolding codec_table
  get-codec_table t ts h =
      get-insert_all t ts [] ∙ ap (λ b. if b then some (codec_of msgs t) else HashMap.get t []) h

  -- The codec of a message encodes it, and does not panic.
  pub encode_msg_same :
      (t : ℕ) (m : Value t) (ctx : Option (EncodeContext G))
      → (codec_of msgs t).encode_msg t m ctx ≡ returned (encode_to_bytes t m ctx)
  unfolding codec_of
  encode_msg_same t m ctx = ap (expect_encode msgs t ctx) (downcast_same Value t m)

  differs-listed :
      (i t : ℕ) (ts : List ℕ)
      → listed t ts ≡ true
      → differs i (map id ts) ≡ true
      → eqb i (id t) ≡ false
  differs-listed i t [] h d = absurd (cc)
  differs-listed i t (u ∷ us) h d = ground (arith, differs-listed i t us, ap id)

  -- Where the numbers differ, the arm of a message's number is that message's.
  pub arm-listed :
      (t : ℕ) (ts : List ℕ)
      → listed t ts ≡ true
      → uniqueness_check (map id ts) ≡ true
      → arm msgs (id t) ts ≡ some t
  unfolding arm uniqueness_check
  arm-listed t [] h u = absurd (cc)
  arm-listed t (v ∷ vs) h u = ground (arith, arm-listed t vs, differs-listed (id v) t vs, ap id)
