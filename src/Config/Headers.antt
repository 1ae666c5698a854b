-- ===== src/Config/Headers.antt =====
-- src/config.rs: the URI, the `Contact` and the `Via` of the client itself. The branch of a `Via`
-- is made of a random identifier, which is an argument here.
use simple_sip_rs.Prelude.{[], ◌∷◌, ◌++◌, none, some, Text, codes}
use simple_sip_rs.Config.{Config}
use simple_sip_rs.Sip.{Rsip, Uri, sip, of_socket_addr, NameAddr, Via, v2, tcp, branch, other_param}

module _ (r : Rsip) where
  unfoldable pub get_own_uri : Config → Uri
  get_own_uri c = record r.uri_default {
    scheme = some sip;
    auth = some (record { user = c.username; password = none });
    host_with_port = of_socket_addr c.own_addr;
  }

  unfoldable pub get_own_contact : Config → NameAddr
  unfolding get_own_uri
  get_own_contact c = record { display_name = none; uri = get_own_uri c; params = [] }

  unfoldable pub get_own_via : Config → Text → Via
  get_own_via c uuid = record {
    version = v2;
    transport = tcp;
    uri = record r.uri_default { host_with_port = of_socket_addr c.own_addr };
    params = branch (codes "z9hG4bK" ++ uuid) ∷ other_param (codes "rport") none ∷ [];
  }
