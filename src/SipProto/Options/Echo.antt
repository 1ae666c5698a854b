-- ===== src/SipProto/Options/Echo.antt =====
-- What the answer to an `OPTIONS` request in src/sip_proto/options.rs takes over from the request.
use simple_sip_rs.Prelude.{◌≡◌, some, Text, ok}
use simple_sip_rs.Config.{Config}
use simple_sip_rs.Sip.{Rsip, IsRsip, Via, via, to, from, call_id, cseq, Request}
use simple_sip_rs.SipProto.Options.{options_headers, options_response, generate_options_response}

module _ {r : Rsip} (law : IsRsip r) where
  -- The answer to an OPTIONS request with a well-formed Via, a To, a From, a call id and a CSeq
  -- has the last four as they are in the request, and the Via written again.
  pub options_echo :
      (q : Request) (config : Config) (v t f id seq : Text) (request_via : Via)
      → r.find_header via q.headers ≡ some v
      → r.via_typed v ≡ some request_via
      → r.find_header to q.headers ≡ some t
      → r.find_header from q.headers ≡ some f
      → r.find_header call_id q.headers ≡ some id
      → r.find_header cseq q.headers ≡ some seq
      → let hs = options_headers r config request_via t f id seq in
        (generate_options_response r q config ≡ ok (options_response r hs))
        × (r.find_header via hs ≡ some (r.via_text request_via))
        × (r.find_header to hs ≡ some t)
        × (r.find_header from hs ≡ some f)
        × (r.find_header call_id hs ≡ some id)
        × (r.find_header cseq hs ≡ some seq)
  unfolding generate_options_response
  options_echo q config v t f id seq request_via hv hw ht hf hi hc = (
    rw (hv, hw, ht, hf, hi, hc),
    simp law.find-cons,
    simp law.find-cons,
    simp law.find-cons,
    simp law.find-cons,
    simp law.find-cons,
  )
