-- ===== src/SipProto/Register.antt =====
-- src/sip_proto/register.rs: the `REGISTER` request, and digest authentication. The MD5 digest as
-- hexadecimal text is a library's, and so is the text of an IP address; both are parameters, and so
-- are the identifiers that the code draws at random.
use simple_sip_rs.Prelude.{
  [], ◌∷◌, ◌++◌, none, some, Text, codes, Outcome, ok, ok_or, missing_header, bad_header, ◌>>=◌,
}
use simple_sip_rs.Config.{Config, IpAddr}
use simple_sip_rs.Config.Headers.{get_own_uri}
use simple_sip_rs.Sip.{
  Rsip, register, tcp, transport, branch, tag, other_param, Uri, sip, of_socket_addr, of_ip, v2,
  via, max_forwards, contact, to, from, call_id, cseq, allow, user_agent, content_length,
  authorization, Header, Request, SipMessage, message_headers, with_headers,
}
use simple_sip_rs.SipProto.Allow.{get_allow_header}

pub record Digest : Type 0 where
  pub md5_hex : Text → Text
  pub ip_text : IpAddr → Text

pub record ConfigAuth : Type 0 where
  pub config : Config
  pub realm : Text
  pub nonce : Text

-- The pieces of `format!("{}:{}", …)`.
abbrev pub colon : Text → Text → Text
colon a b = a ++ (codes ":" ++ b)

module _ (r : Rsip) (d : Digest) where
  -- The URI that is authenticated, as text and as a header's.
  unfoldable pub digest_uri : Config → Text
  digest_uri c = codes "sip:" ++ (d.ip_text c.server_addr.ip ++ codes ";transport=TCP")

  abbrev pub server_uri : Config → Uri
  server_uri c = record r.uri_default {
    scheme = some sip;
    host_with_port = of_ip c.server_addr.ip none;
    params = transport tcp ∷ [];
  }

  -- The response to a challenge for a method.
  unfoldable pub digest_response : ConfigAuth → Text → Text
  digest_response p method =
      let hash1 : Text = d.md5_hex (colon p.config.username (colon p.realm p.config.password)) in
      let hash2 : Text = d.md5_hex (colon method (digest_uri p.config)) in
      d.md5_hex (colon hash1 (colon p.nonce hash2))

  unfoldable pub add_auth_header : SipMessage → ConfigAuth → Outcome SipMessage
  add_auth_header message p = do
    c ← ok_or (r.find_header cseq (message_headers message)) missing_header
    method ← ok_or (r.cseq_method c) bad_header
    let header : Header = record {
      kind = authorization;
      value = r.authorization_text (record {
        username = p.config.username;
        realm = p.realm;
        nonce = p.nonce;
        uri = server_uri p.config;
        response = digest_response p (r.method_text method);
      });
    }
    ok (with_headers message (message_headers message ++ header ∷ []))

  abbrev remote_uri : Config → Uri
  remote_uri c = record r.uri_default {
    scheme = some sip;
    auth = some (record { user = c.username; password = none });
    host_with_port = of_socket_addr c.server_addr;
    params = transport tcp ∷ [];
  }

  -- The request, with the identifiers of its branch and of its call.
  unfoldable pub generate_register_request : Config → Text → Text → Request
  generate_register_request c branch_id call = record {
    method = register;
    uri = server_uri c;
    version = v2;
    headers =
        record {
          kind = via;
          value = r.via_text (record {
            version = v2;
            transport = tcp;
            uri = record r.uri_default { host_with_port = of_socket_addr c.own_addr };
            params = branch (codes "z9hG4bK" ++ branch_id) ∷ other_param (codes "rport") none ∷ [];
          });
        }
        ∷ record { kind = max_forwards; value = r.max_forwards_default }
        ∷ record {
          kind = contact;
          value =
              r.address_text (record { display_name = none; uri = get_own_uri r c; params = [] });
        }
        ∷ record {
          kind = to;
          value = r.address_text (record { display_name = none; uri = remote_uri c; params = [] });
        }
        ∷ record {
          kind = from;
          value = r.address_text (record {
            display_name = none;
            uri = remote_uri c;
            params = tag (codes "a73kszlflasda") ∷ [];
          });
        }
        ∷ record { kind = call_id; value = call }
        ∷ record { kind = cseq; value = r.cseq_text 1 register }
        ∷ record { kind = allow; value = r.allow_text get_allow_header }
        ∷ record { kind = user_agent; value = codes "rust-sip" }
        ∷ record { kind = content_length; value = r.content_length_text 0 }
        ∷ [];
    body = [];
  }
