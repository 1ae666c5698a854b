-- ===== src/Call/Dialog.antt =====
-- src/call/session_parameters.rs: the headers of the messages of a dialog, and its sequence number.
pub mod Parties
use simple_sip_rs.Prelude.{ℕ, ◌+◌, [], ◌∷◌, none, Text, codes, Outcome, ok, unwrap, ◌>>=◌}
use simple_sip_rs.Prelude.Word.{u32}
use simple_sip_rs.Config.Headers.{get_own_contact, get_own_via}
use simple_sip_rs.Sip.{
  Rsip, Uri, NameAddr, tag, Header, Headers, Request, via, max_forwards, contact, to, from, call_id,
  cseq, allow, user_agent, content_length,
}
use simple_sip_rs.SipProto.Allow.{get_allow_header}
use simple_sip_rs.Call.Session.{SessionParameters}

-- The typed `From` or `To` of one party.
abbrev pub party : Uri → Text → NameAddr
party uri t = record { display_name = none; uri = uri; params = tag t ∷ [] }

module _ (r : Rsip) where
  unfoldable pub get_headers_request : SessionParameters → Text → Headers
  get_headers_request s uuid =
      record { kind = via; value = r.via_text (get_own_via r s.config uuid) }
      ∷ record { kind = max_forwards; value = r.max_forwards_default }
      ∷ record { kind = call_id; value = s.call_id }
      ∷ record { kind = contact; value = r.address_text (get_own_contact r s.config) }
      ∷ record { kind = from; value = r.address_text (party s.local.uri s.local.tag) }
      ∷ record { kind = to; value = r.address_text (party s.remote.uri s.remote.tag) }
      ∷ record { kind = content_length; value = r.content_length_text 0 }
      ∷ record { kind = user_agent; value = codes "sip-rs" }
      ∷ []

  -- The typed `CSeq` of a header, written again.
  abbrev cseq_again : Text → Outcome Text
  cseq_again t = do
    seq ← unwrap (r.cseq_seq t)
    method ← unwrap (r.cseq_method t)
    ok (r.cseq_text seq method)

  -- The list that `get_headers_response` returns, for the two texts that it takes from the request.
  abbrev pub response_headers : SessionParameters → Text → Text → Headers
  response_headers s request_via request_cseq =
      record { kind = allow; value = r.allow_text get_allow_header }
      ∷ record { kind = max_forwards; value = r.max_forwards_default }
      ∷ record { kind = via; value = request_via }
      ∷ record { kind = call_id; value = s.call_id }
      ∷ record { kind = from; value = r.address_text (party s.remote.uri s.remote.tag) }
      ∷ record { kind = to; value = r.address_text (party s.local.uri s.local.tag) }
      ∷ record { kind = cseq; value = request_cseq }
      ∷ record { kind = content_length; value = r.content_length_text 0 }
      ∷ record { kind = user_agent; value = codes "sip-rs" }
      ∷ []

  unfoldable pub get_headers_response : SessionParameters → Request → Outcome Headers
  get_headers_response s request = do
    request_via ← unwrap (r.find_header via request.headers)
    request_cseq ← unwrap (r.find_header cseq request.headers)
    again ← cseq_again request_cseq
    ok (response_headers s request_via again)

-- The new session and the number that it hands out; the `u32` wraps as in a release build.
unfoldable pub get_next_cseq : SessionParameters → SessionParameters × ℕ
get_next_cseq s = let n : ℕ = u32 (s.cseq + 1) in (record s { cseq = n }, n)
