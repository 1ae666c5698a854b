-- ===== src/Media/TelephoneEvents/Presses.antt =====
-- What the codec of src/media/telephone_events.rs reports of the keys.
use simple_sip_rs.Prelude.{
  ℕ, ◌≡◌, refl, true, false, not, ◌&&◌, List, [], ◌∷◌, none, some, ok, arith, if◌then◌else◌,
  Bool-cases, inl, inr,
}
use simple_sip_rs.Media.TelephoneEvents.{
  TelephoneEvent, key_zero, one, two, three, four, five, six, seven, eight, nine, star, hash, a, b,
  c, d, byte_of, try_from_byte, telephone_event, TelephoneEventsCodec, same_key, contains, remove,
  insert, is_end, decode_payload,
}

try_from_byte-byte_of : (k : TelephoneEvent) → try_from_byte (byte_of k) ≡ ok k
unfolding try_from_byte byte_of
try_from_byte-byte_of key_zero = refl
try_from_byte-byte_of one = refl
try_from_byte-byte_of two = refl
try_from_byte-byte_of three = refl
try_from_byte-byte_of four = refl
try_from_byte-byte_of five = refl
try_from_byte-byte_of six = refl
try_from_byte-byte_of seven = refl
try_from_byte-byte_of eight = refl
try_from_byte-byte_of nine = refl
try_from_byte-byte_of star = refl
try_from_byte-byte_of hash = refl
try_from_byte-byte_of a = refl
try_from_byte-byte_of b = refl
try_from_byte-byte_of c = refl
try_from_byte-byte_of d = refl

contains-remove :
    (k j : TelephoneEvent) (keys : List TelephoneEvent)
    → contains j (remove k keys) ≡ (if same_key j k then false else contains j keys)
unfolding contains remove
contains-remove k j [] = ground arith
contains-remove k j (i ∷ keys) = ground (arith, contains-remove k j keys)

same_contains :
    (k j : TelephoneEvent) (keys : List TelephoneEvent)
    → same_key j k ≡ true
    → contains j keys ≡ contains k keys
unfolding contains
same_contains k j [] h = refl
same_contains k j (i ∷ keys) h = ground (arith, same_contains k j keys h)

contains-insert :
    (k j : TelephoneEvent) (keys : List TelephoneEvent)
    → contains j (insert k keys) ≡ (if same_key j k then true else contains j keys)
unfolding contains insert
contains-insert k j keys = ground (arith, same_contains k j keys)

-- A payload of a key reports the key's press unless the key is held already, and every release;
-- of the keys that are held only that key changes, which is held unless it was released.
pub decode_event :
    (codec : TelephoneEventsCodec) (k : TelephoneEvent) (flags : ℕ) (rest : List ℕ)
    → let (codec', res) = decode_payload codec (byte_of k ∷ flags ∷ rest) in
      (res
        ≡ ok (
            if not (is_end flags) && contains k codec.pressed_keys
            then none
            else some (telephone_event k (is_end flags))))
      × ((j : TelephoneEvent)
          → contains j codec'.pressed_keys
            ≡ (if same_key j k then not (is_end flags) else contains j codec.pressed_keys))
unfolding decode_payload
decode_event codec k flags rest = rw (try_from_byte-byte_of k) (elim (Bool-cases (is_end flags)) [
  | inl end ↦ rw end (refl, λ j. contains-remove k j codec.pressed_keys)
  | inr held ↦ rw held (elim (Bool-cases (contains k codec.pressed_keys)) [
    | inl pressed ↦ rw pressed (refl, λ j. ground (arith, same_contains k j codec.pressed_keys))
    | inr not_yet ↦ rw not_yet (refl, λ j. contains-insert k j codec.pressed_keys)
  ])
])
