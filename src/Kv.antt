-- ===== src/Kv.antt =====
-- The storage as the frontend sees it: the calls of `KVClient` in frontend/src/kv_client.h that the
-- handlers use, over an unknown state, and what they may rely on.
pub mod Memory
pub mod Cloud
use ncloud.Common.{
  ◌≡◌, refl, ◌≢◌, ap, sym, ◌∙◌, ◌⊎◌, Option, none, some, Bytes, [], Bool, true, false, bytes_eq,
  ◌&&◌,
}

pub data KvReadStatus : Type 0 where
  found : Bytes → KvReadStatus
  not_found unavailable : KvReadStatus

pub record Kv : Type 1 where
  pub State : Type 0
  pub get_status : Bytes → Bytes → State → KvReadStatus × State
  pub put : Bytes → Bytes → Bytes → State → Bool × State
  pub cput : Bytes → Bytes → Bytes → Bytes → State → Bool × State
  pub del : Bytes → Bytes → State → Bool × State

-- The same row and column.
abbrev pub same : Bytes → Bytes → Bytes → Bytes → Bool
same r c i j = bytes_eq r i && bytes_eq c j

-- What an answer says of a cell.
abbrev pub Tells : KvReadStatus → Option Bytes → Type 0
Tells (found v) o = o ≡ some v
Tells not_found o = o ≡ none
Tells unavailable o = Unit

-- The cells behind the calls. A write that is answered with success took place; one that failed may
-- have taken place or not; no call changes another cell.
pub record IsLawful (K : Kv) : Type 0 where
  pub view : K.State → Bytes → Bytes → Option Bytes
  pub get-view : (r c i j : Bytes) (s : K.State) → view (K.get_status r c s).1 i j ≡ view s i j
  pub get-Tells : (r c : Bytes) (s : K.State) → Tells (K.get_status r c s).0 (view s r c)
  pub put_done :
      (r c v : Bytes) (s : K.State) → (K.put r c v s).0 ≡ true → view (K.put r c v s).1 r c ≡ some v
  pub put_either :
      (r c v : Bytes) (s : K.State)
      → (view (K.put r c v s).1 r c ≡ some v) ⊎ (view (K.put r c v s).1 r c ≡ view s r c)
  pub put_other :
      (r c v i j : Bytes) (s : K.State)
      → same r c i j ≡ false
      → view (K.put r c v s).1 i j ≡ view s i j
  pub cput_done :
      (r c v w : Bytes) (s : K.State)
      → (K.cput r c v w s).0 ≡ true
      → (view s r c ≡ some v) × (view (K.cput r c v w s).1 r c ≡ some w)
  pub cput_either :
      (r c v w : Bytes) (s : K.State)
      → (view s r c ≡ some v) × (view (K.cput r c v w s).1 r c ≡ some w)
        ⊎ (view (K.cput r c v w s).1 r c ≡ view s r c)
  pub cput_other :
      (r c v w i j : Bytes) (s : K.State)
      → same r c i j ≡ false
      → view (K.cput r c v w s).1 i j ≡ view s i j
  pub del_done :
      (r c : Bytes) (s : K.State) → (K.del r c s).0 ≡ true → view (K.del r c s).1 r c ≡ none
  pub del_either :
      (r c : Bytes) (s : K.State)
      → (view (K.del r c s).1 r c ≡ none) ⊎ (view (K.del r c s).1 r c ≡ view s r c)
  pub del_other :
      (r c i j : Bytes) (s : K.State) → same r c i j ≡ false → view (K.del r c s).1 i j ≡ view s i j

-- Every read is answered.
pub record IsUp (K : Kv) : Type 0 where
  pub answers : (r c : Bytes) (s : K.State) → (K.get_status r c s).0 ≢ unavailable

pub value_or_nil : KvReadStatus → Bytes
value_or_nil (found v) = v
value_or_nil not_found = []
value_or_nil unavailable = []

unfoldable pub get_str : (K : Kv) → Bytes → Bytes → K.State → Bytes × K.State
unfolding value_or_nil
get_str K r c s = (value_or_nil (K.get_status r c s).0, (K.get_status r c s).1)

-- What stands in a cell, with nothing for a missing one.
abbrev pub text_of : Option Bytes → Bytes
text_of none = []
text_of (some v) = v

Tells-text :
    (a : KvReadStatus) (o : Option Bytes) → Tells a o → a ≢ unavailable → value_or_nil a ≡ text_of o
unfolding value_or_nil
Tells-text (found v) o t up = sym (ap text_of t)
Tells-text not_found o t up = sym (ap text_of t)
Tells-text unavailable o t up = absurd (up refl)

module _ (K : Kv) (L : IsLawful K) (up : IsUp K) where
  -- A storage that answers gives the text of the cell.
  pub get_str-text : (r c : Bytes) (s : K.State) → (get_str K r c s).0 ≡ text_of (L.view s r c)
  unfolding get_str
  get_str-text r c s =
      Tells-text (K.get_status r c s).0 (L.view s r c) (L.get-Tells r c s) (up.answers r c s)

  pub get_str-view : (r c i j : Bytes) (s : K.State) → L.view (get_str K r c s).1 i j ≡ L.view s i j
  unfolding get_str
  get_str-view r c i j s = L.get-view r c i j s
