-- ===== src/Call/Dialog/Parties.antt =====
-- Who is who in the messages of a dialog: what src/call/session_parameters.rs writes into a message,
-- and what it reads from one.
use simple_sip_rs.Prelude.{ℕ, ◌≡◌, [], ◌∷◌, none, some, Text, arith, ok}
use simple_sip_rs.Sip.{
  Rsip, IsRsip, Method, HeaderKind, Headers, Request, via, to, from, call_id, cseq,
}
use simple_sip_rs.Call.Session.{SessionParameters, find_map}
use simple_sip_rs.Call.Dialog.{party, response_headers, get_headers_request, get_headers_response}

module _ {r : Rsip} (law : IsRsip r) where
  -- The code's own search for a header agrees with the library's accessor.
  pub find_map-eq-find_header : (k : HeaderKind) (hs : Headers) → find_map k hs ≡ r.find_header k hs
  unfolding find_map
  find_map-eq-find_header k [] = ground (arith, law.find-nil k)
  find_map-eq-find_header k (h ∷ hs) =
      ground (arith, law.find-cons k h hs, find_map-eq-find_header k hs)

  -- The headers of a request of the dialog carry its call id, name the local party in From and
  -- the remote one in To, each with its tag, and have no CSeq.
  pub request_parties :
      (s : SessionParameters) (uuid : Text)
      → let hs = get_headers_request r s uuid in
        (r.find_header call_id hs ≡ some s.call_id)
        × (r.find_header from hs ≡ some (r.address_text (party s.local.uri s.local.tag)))
        × (r.find_header to hs ≡ some (r.address_text (party s.remote.uri s.remote.tag)))
        × (r.find_header cseq hs ≡ none)
  unfolding get_headers_request
  request_parties s uuid = (
    simp law.find-cons,
    simp law.find-cons,
    simp law.find-cons,
    simp (law.find-cons, law.find-nil),
  )

  -- The headers of a response to a request with a Via and a well-formed CSeq carry these two of
  -- the request and the dialog's call id, and name the remote party in From and the local one in
  -- To.
  pub response_parties :
      (s : SessionParameters) (q : Request) (v : Text) (n : ℕ) (m : Method)
      → r.find_header via q.headers ≡ some v
      → r.find_header cseq q.headers ≡ some (r.cseq_text n m)
      → let hs = response_headers r s v (r.cseq_text n m) in
        (get_headers_response r s q ≡ ok hs)
        × (r.find_header via hs ≡ some v)
        × (r.find_header cseq hs ≡ some (r.cseq_text n m))
        × (r.find_header call_id hs ≡ some s.call_id)
        × (r.find_header from hs ≡ some (r.address_text (party s.remote.uri s.remote.tag)))
        × (r.find_header to hs ≡ some (r.address_text (party s.local.uri s.local.tag)))
  unfolding get_headers_response
  response_parties s q v n m hv hc = (
    rw (hv, hc, law.cseq_read_seq n m, law.cseq_read_method n m),
    simp law.find-cons,
    simp law.find-cons,
    simp law.find-cons,
    simp law.find-cons,
    simp law.find-cons,
  )
