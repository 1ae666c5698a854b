-- ===== src/Tests/Offer.antt =====
-- The session description that is offered with PCMU and PCMA.
use simple_sip_rs.Prelude.{◌≡◌, ok, true, false}
use simple_sip_rs.Sdp.{SdpSession}
use simple_sip_rs.Media.Features.{Features}
use simple_sip_rs.SipProto.Sdp.{generate_sdp_new}
use simple_sip_rs.SipProto.Sdp.Offer.{distinct, IsOffer, payload_types, generate_sdp_new_lem}
use simple_sip_rs.Tests.Library.{simple_sdp, simple_sdp-IsWebrtcSdp, config}

abbrev both : Features
both = record { opus = false; pcmu = true; pcma = true }

generate_sdp_new_lem_example :
    (s : SdpSession) × (generate_sdp_new simple_sdp both config 20480 ≡ ok s)
    × IsOffer both config 20480 s
    × (distinct (payload_types both) ≡ false)
generate_sdp_new_lem_example = generate_sdp_new_lem simple_sdp-IsWebrtcSdp both config 20480
