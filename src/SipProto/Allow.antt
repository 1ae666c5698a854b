-- ===== src/SipProto/Allow.antt =====
-- src/sip_proto/mod.rs: the methods that the client says it allows.
use simple_sip_rs.Prelude.{List, [], ◌∷◌}
use simple_sip_rs.Sip.{Method, invite, ack, bye, cancel, options}

abbrev pub get_allow_header : List Method
get_allow_header = invite ∷ ack ∷ bye ∷ cancel ∷ options ∷ []
