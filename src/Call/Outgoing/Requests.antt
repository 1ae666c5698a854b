-- ===== src/Call/Outgoing/Requests.antt =====
-- The requests that src/call/outgoing_call.rs sends before a call is answered, and what they have in
-- common.
use simple_sip_rs.Prelude.{ℕ, ◌≡◌, List, [], ◌∷◌, ◌++◌, some}
use simple_sip_rs.Sip
use simple_sip_rs.Sip.{
  Rsip, IsRsip, Method, invite, cancel, Challenge, HeaderKind, same_kind, Header, Headers, Request,
  SipMessage,
}
use simple_sip_rs.Sdp.{WebrtcSdp}
use simple_sip_rs.SipProto.Register.{Digest, ConfigAuth, server_uri, digest_response}
use simple_sip_rs.Call.Runtime.{Runtime}
use simple_sip_rs.Call.Outgoing.{OutgoingCall, get_base_headers, generate_invite, generate_cancel}

module _ (r : Rsip) (t : Runtime) (w : WebrtcSdp) where
  -- The CANCEL of a call has the Via, call id, From and To of its INVITE, and the same sequence
  -- number with its own method.
  pub cancel_matches_invite :
      (c : OutgoingCall t)
      → IsRsip r
      → let i = (generate_invite r t w c).headers in
        let k = (generate_cancel r t w c).headers in
        (r.find_header Sip.via k ≡ r.find_header Sip.via i)
        × (r.find_header Sip.call_id k ≡ r.find_header Sip.call_id i)
        × (r.find_header Sip.from k ≡ r.find_header Sip.from i)
        × (r.find_header Sip.to k ≡ r.find_header Sip.to i)
        × (r.find_header Sip.cseq i ≡ some (r.cseq_text c.cseq invite))
        × (r.find_header Sip.cseq k ≡ some (r.cseq_text c.cseq cancel))
  unfolding generate_invite generate_cancel get_base_headers
  cancel_matches_invite c law = (
    simp (law.find-unique_push, law.find-cons),
    simp (law.find-unique_push, law.find-cons),
    simp (law.find-unique_push, law.find-cons),
    simp (law.find-unique_push, law.find-cons),
    simp law.find-unique_push,
    simp law.find-unique_push,
  )

  module _ (d : Digest) where
    -- The header that answers a challenge.
    abbrev pub credentials : ConfigAuth → Header
    credentials p = record {
      kind = Sip.authorization;
      value = r.authorization_text (record {
        username = p.config.username;
        realm = p.realm;
        nonce = p.nonce;
        uri = server_uri r d p.config;
        response = digest_response r d p (r.method_text invite);
      });
    }

    -- The call's `INVITE` under a sequence number, with the answer to a challenge at its end.
    abbrev pub authorized_invite : OutgoingCall t → ℕ → Challenge → Request
    authorized_invite c n ch =
        let q = generate_invite r t w (record c { cseq = n }) in
        record q {
          headers =
              q.headers
              ++ credentials (record { config = c.config; realm = ch.realm; nonce = ch.nonce })
                ∷ [];
        }

    abbrev pub messages : OutgoingCall t → List SipMessage
    messages c = t.message_tx.sent c.call_connection.sender
