-- ===== src/Tests/Keys.antt =====
-- The press of a key that is not held.
use simple_sip_rs.Prelude.{◌≡◌, false, not, [], ◌∷◌, some, ok, if◌then◌else◌}
use simple_sip_rs.Media.TelephoneEvents.{
  TelephoneEvent, five, byte_of, telephone_event, TelephoneEventsCodec, same_key, contains, is_end,
  decode_payload,
}
use simple_sip_rs.Media.TelephoneEvents.Presses.{decode_event}

abbrev codec : TelephoneEventsCodec
codec = record { payload_type = 101; pressed_keys = [] }

decode_event_example :
    let (codec', res) = decode_payload codec (byte_of five ∷ 10 ∷ 0 ∷ 160 ∷ []) in
    (res ≡ ok (some (telephone_event five false)))
    × ((j : TelephoneEvent)
        → contains j codec'.pressed_keys
          ≡ (if same_key j five then not (is_end 10) else contains j codec.pressed_keys))
unfolding contains
decode_event_example = decode_event codec five 10 (0 ∷ 160 ∷ [])
