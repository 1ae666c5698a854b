-- ===== src/SipProto/Options.antt =====
-- src/sip_proto/options.rs: the answer to an `OPTIONS` request.
pub mod Echo
use simple_sip_rs.Prelude.{[], ◌∷◌, none, some, Text, codes, Outcome, ok, unwrap, ◌>>=◌}
use simple_sip_rs.Config.{Config}
use simple_sip_rs.Config.Headers.{get_own_uri}
use simple_sip_rs.Sip.{
  Rsip, Via, status_ok, v2, via, contact, to, from, call_id, cseq, allow, accept, accept_language,
  user_agent, content_length, Headers, Request, Response, SipMessage, response,
}
use simple_sip_rs.SipProto.Allow.{get_allow_header}

module _ (r : Rsip) where
  -- The headers, for the texts that are taken from the request.
  abbrev pub options_headers : Config → Via → Text → Text → Text → Text → Headers
  options_headers config request_via t f id seq =
      record { kind = via; value = r.via_text request_via }
      ∷ record {
        kind = contact;
        value =
            r.address_text
              (record { display_name = none; uri = get_own_uri r config; params = [] });
      }
      ∷ record { kind = to; value = t }
      ∷ record { kind = from; value = f }
      ∷ record { kind = call_id; value = id }
      ∷ record { kind = cseq; value = seq }
      ∷ record { kind = allow; value = r.allow_text get_allow_header }
      ∷ record { kind = accept; value = r.sdp_accept }
      ∷ record { kind = accept_language; value = codes "en" }
      ∷ record { kind = user_agent; value = codes "rust-sip" }
      ∷ record { kind = content_length; value = r.content_length_text 0 }
      ∷ []

  abbrev pub options_response : Headers → SipMessage
  options_response headers =
      response (record { status_code = status_ok; version = v2; headers = headers; body = [] })

  -- Every header that is read of the request is unwrapped.
  unfoldable pub generate_options_response : Request → Config → Outcome SipMessage
  generate_options_response q config = do
    v ← unwrap (r.find_header via q.headers)
    request_via ← unwrap (r.via_typed v)
    t ← unwrap (r.find_header to q.headers)
    f ← unwrap (r.find_header from q.headers)
    id ← unwrap (r.find_header call_id q.headers)
    seq ← unwrap (r.find_header cseq q.headers)
    ok (options_response (options_headers config request_via t f id seq))
