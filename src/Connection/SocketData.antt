-- ===== src/Connection/SocketData.antt =====
-- src/connection/socket_data.rs: the channels of the calls, by their call ids. The map is an
-- association list, read at the first entry of a key.
use simple_sip_rs.Prelude.{
  ◌≡◌, ◌≢◌, refl, sym, ◌∙◌, arith, true, false, List, [], ◌∷◌, Option, none, some, Text, text_eq,
  eq_of_text_eq, Outcome, ok, err, channel_exists, if◌then◌else◌, Bool-cases, inl, inr,
}

module _ {Tx : Type 0} where
  -- `get_mut` and `contains_key`, a change through `get_mut`, and `remove`.
  unfoldable pub lookup : Text → List (Text × Tx) → Option Tx
  lookup id [] = none
  lookup id ((key, tx) ∷ l) = let later = lookup id l in if text_eq key id then some tx else later

  unfoldable pub update : Text → Tx → List (Text × Tx) → List (Text × Tx)
  update id new [] = []
  update id new ((key, tx) ∷ l) =
      let later = update id new l in if text_eq key id then (key, new) ∷ l else (key, tx) ∷ later

  unfoldable pub remove : Text → List (Text × Tx) → List (Text × Tx)
  remove id [] = []
  remove id ((key, tx) ∷ l) =
      let later = remove id l in if text_eq key id then later else (key, tx) ∷ later

pub record SocketData (Tx : Type 0) : Type 0 where
  pub call_channels : List (Text × Tx)

module _ {Tx Rx : Type 0} where
  abbrev pub insert : SocketData Tx → Text → Tx × Rx → Option Tx → SocketData Tx × Outcome Rx
  insert d id (tx, rx) (some _) = (d, err channel_exists)
  insert d id (tx, rx) none = (record { call_channels = (id, tx) ∷ d.call_channels }, ok rx)

  -- The two ends of the fresh channel are an argument.
  unfoldable pub create_call_channel : SocketData Tx → Text → Tx × Rx → SocketData Tx × Outcome Rx
  create_call_channel d id ends = insert d id ends (lookup id d.call_channels)

not_both : (key id other : Text) → id ≢ other → text_eq key id ≡ true → text_eq key other ≡ false
not_both key id other d h = elim (Bool-cases (text_eq key other)) [
  | inl same ↦ absurd (d (sym (eq_of_text_eq key id h) ∙ eq_of_text_eq key other same))
  | inr differ ↦ differ
]

-- What the map answers after a change, for the key and for every other one.
module _ {Tx : Type 0} where
  pub lookup-update :
      (id : Text) (old new : Tx) (l : List (Text × Tx))
      → lookup id l ≡ some old
      → lookup id (update id new l) ≡ some new
  unfolding lookup update
  lookup-update id old new [] h = ground arith
  lookup-update id old new ((key, tx) ∷ l) h = ground (arith, lookup-update id old new l)

  pub lookup-remove : (id : Text) (l : List (Text × Tx)) → lookup id (remove id l) ≡ none
  unfolding lookup remove
  lookup-remove id [] = refl
  lookup-remove id ((key, tx) ∷ l) = ground (arith, lookup-remove id l)

  pub lookup-update_other :
      (id other : Text) (new : Tx) (l : List (Text × Tx))
      → id ≢ other
      → lookup other (update id new l) ≡ lookup other l
  unfolding lookup update
  lookup-update_other id other new [] d = refl
  lookup-update_other id other new ((key, tx) ∷ l) d =
      ground (arith, lookup-update_other id other new l d, not_both key id other d)

  pub lookup-remove_other :
      (id other : Text) (l : List (Text × Tx))
      → id ≢ other
      → lookup other (remove id l) ≡ lookup other l
  unfolding lookup remove
  lookup-remove_other id other [] d = refl
  lookup-remove_other id other ((key, tx) ∷ l) d =
      ground (arith, lookup-remove_other id other l d, not_both key id other d)
