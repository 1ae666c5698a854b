-- ===== src/Connection/Socket/Registration.antt =====
-- How the registration of src/connection/sip_socket.rs goes.
use simple_sip_rs.Prelude.{
  ℕ, suc, ◌≡◌, refl, sym, ap, ◌∙◌, List, Bool, true, [], ◌∷◌, ◌++◌, some, Text, ok, err,
  unexpected_status, if◌then◌else◌, codes, take, drop, false, ◌⊎◌, inl, inr, Bool-cases,
  send_failed,
}
use simple_sip_rs.Channels.{Sender}
use simple_sip_rs.Config.{Config}
use simple_sip_rs.Sip
use simple_sip_rs.Sip.{
  Rsip, IsRsip, www_authenticate, authorization, cseq, Header, Headers, Request, StatusCode,
  status_ok, trying, ringing, session_progress, unauthorized, busy_here, busy_everywhere,
  service_unavailable, temporarily_unavailable, other_status, Challenge, Response, SipMessage,
  request, response,
}
use simple_sip_rs.SipProto.Register.{
  Digest, server_uri, digest_response, digest_uri, add_auth_header, generate_register_request,
}
use simple_sip_rs.Call.Runtime.{Runtime}
use simple_sip_rs.Call.Incoming.{IncomingCall}
use simple_sip_rs.Call.Outgoing.{is_ok}
use simple_sip_rs.Connection.Socket.{
  Network, IsNetwork, Socket, send_message, read_next_message, set_seq, replace_first,
  authorized_register, register, second_answer,
}

module _ (r : Rsip) (d : Digest) where
  -- The response of RFC 2617 to a challenge for a REGISTER.
  abbrev digest_answer : Config → Challenge → Text
  digest_answer config c =
      let secret : Text =
        d.md5_hex (config.username ++ (codes ":" ++ (c.realm ++ (codes ":" ++ config.password)))) in
      let target : Text = d.md5_hex (
        r.method_text Sip.register
        ++ (codes ":"
            ++ (codes "sip:" ++ (d.ip_text config.server_addr.ip ++ codes ";transport=TCP")))) in
      d.md5_hex (secret ++ (codes ":" ++ (c.nonce ++ (codes ":" ++ target))))

  abbrev credentials : Config → Challenge → Header
  credentials config c = record {
    kind = authorization;
    value = r.authorization_text (record {
      username = config.username;
      realm = c.realm;
      nonce = c.nonce;
      uri = server_uri r d config;
      response = digest_answer config c;
    });
  }

  -- The second request is the first under the sequence number 2, with the answer to the challenge
  -- behind its headers.
  abbrev pub IsAuthorized : Config → Challenge → Request → Request → Type 0
  IsAuthorized config c q q' =
      (q'.method ≡ Sip.register)
      × (q'.uri ≡ q.uri)
      × ((before : Headers) × (after : Headers) × (q.headers
            ≡ before ++ record { kind = cseq; value = r.cseq_text 1 Sip.register } ∷ after)
          × (q'.headers
              ≡ before
                ++ record { kind = cseq; value = r.cseq_text 2 Sip.register }
                  ∷ (after ++ credentials config c ∷ [])))

  -- The first request has seven headers up to its CSeq.
  abbrev authorized : Config → Text → Text → Challenge → Request
  authorized config branch_id id c =
      let q = generate_register_request r d config branch_id id in
      record q {
        headers =
            take 6 q.headers
            ++ record { kind = cseq; value = r.cseq_text 2 Sip.register }
              ∷ (drop 7 q.headers ++ credentials config c ∷ []);
      }

  authorized-IsAuthorized :
      (config : Config) (branch_id id : Text) (c : Challenge)
      → IsAuthorized config c
          (generate_register_request r d config branch_id id)
          (authorized config branch_id id c)
  unfolding generate_register_request
  authorized-IsAuthorized config branch_id id c = (
    refl,
    refl,
    (
      take 6 (generate_register_request r d config branch_id id).headers,
      drop 7 (generate_register_request r d config branch_id id).headers,
      refl,
      refl,
    ),
  )

  authorized_register_lem :
      (config : Config) (branch_id id : Text) (c : Challenge)
      → IsRsip r
      → authorized_register r d config
          (request (generate_register_request r d config branch_id id))
          c
        ≡ ok (request (authorized config branch_id id c))
  unfolding authorized_register add_auth_header set_seq replace_first digest_response digest_uri
      generate_register_request
  authorized_register_lem config branch_id id c law =
      simp (law.find-cons, law.cseq_read_method, law.cseq_with_seq_lem)

module _ (r : Rsip) (n : Network) (t : Runtime) (calls : Sender (IncomingCall t)) (d : Digest) where
  abbrev first_request : Socket r n t calls → Text → Text → SipMessage
  first_request s branch_id id =
      request (generate_register_request r d s.sip_context.config branch_id id)

  second_lem :
      (s : Socket r n t calls) (res : Response) (code : StatusCode)
      → res.status_code ≡ code
      → second_answer r n t calls d s (response res)
        ≡ (s, some (if is_ok code then ok tt else err unexpected_status))
  second_lem s res status_ok e = rw e
  second_lem s res trying e = rw e
  second_lem s res ringing e = rw e
  second_lem s res session_progress e = rw e
  second_lem s res unauthorized e = rw e
  second_lem s res busy_here e = rw e
  second_lem s res busy_everywhere e = rw e
  second_lem s res service_unavailable e = rw e
  second_lem s res temporarily_unavailable e = rw e
  second_lem s res (other_status _) e = rw e

  wrote :
      (writer writer' : n.Writer) (text : Text)
      → IsNetwork n
      → n.write_all writer text ≡ (writer', true)
      → n.written writer' ≡ n.written writer ++ text ∷ []
  wrote writer writer' text law e =
      ap (λ (p : n.Writer × Bool). n.written p.0) (sym e)
      ∙ law.write_ok writer text (ap (λ (p : n.Writer × Bool). p.1) e)

  append_two : (xs : List Text) (a b : Text) → (xs ++ a ∷ []) ++ b ∷ [] ≡ xs ++ a ∷ b ∷ []
  append_two [] a b = refl
  append_two (x ∷ xs) a b = ap (λ l. x ∷ l) (append_two xs a b)

  two_writes :
      {writer writer' : n.Writer} {a b : Text}
      → IsNetwork n
      → n.write_all writer a ≡ (writer', true)
      → (n.write_all writer' b).1 ≡ true
      → n.written (n.write_all writer' b).0 ≡ n.written writer ++ a ∷ b ∷ []
  two_writes {writer} {writer'} {a} {b} law e done =
      law.write_ok writer' b done
      ∙ ap (λ l. l ++ b ∷ []) (wrote writer writer' a law e)
      ∙ append_two (n.written writer) a b

  -- Where the REGISTER can be written and a 401 with a readable challenge comes, the client
  -- answers with the same request under the sequence number 2, with an Authorization header
  -- behind its other headers that has the user name, the realm and nonce of the challenge, and
  -- the digest response of RFC 2617 for the REGISTER method and the URI of the server. If the
  -- answer can be written, these two requests are all that is, and the registration succeeds if
  -- the next response is a 200 and fails with an error for any other code; if not, the error of
  -- the send is returned. It assumes the laws of the SIP library and of the stream.
  pub register_challenged :
      (fuel : ℕ) (branch_id id : Text) (s : Socket r n t calls) (res res' : Response) (v : Text)
      (c : Challenge) (reader reader' : n.Reader) (writer : n.Writer)
      → IsRsip r
      → IsNetwork n
      → n.write_all s.stream_write (n.message_text (first_request s branch_id id)) ≡ (writer, true)
      → n.next s.sip_message_reader ≡ (reader, some (ok (response res)))
      → res.status_code ≡ unauthorized
      → r.find_header www_authenticate res.headers ≡ some v
      → r.challenge_typed v ≡ some c
      → n.next reader ≡ (reader', some (ok (response res')))
      → let (s', o) = register r n t calls d (suc fuel) branch_id id s in
        let config = s.sip_context.config in
        (q : Request) × IsAuthorized r d config c
          (generate_register_request r d config branch_id id)
          q
        × (((o ≡ some (if is_ok res'.status_code then ok tt else err unexpected_status))
              × (n.written s'.stream_write
                  ≡ n.written s.stream_write
                    ++ n.message_text (first_request s branch_id id)
                      ∷ n.message_text (request q)
                      ∷ []))
            ⊎ (((n.write_all writer (n.message_text (request q))).1 ≡ false)
                × (o ≡ some (err send_failed))))
  unfolding register send_message read_next_message
  register_challenged fuel branch_id id s res res' v c reader reader' writer laws law w1 n1 code hv
        hc n2 =
      let config = s.sip_context.config in
      let q = authorized r d config branch_id id c in
      let ha = authorized_register_lem r d config branch_id id c laws in
      (
        q,
        authorized-IsAuthorized r d config branch_id id c,
        rw (w1, n1, code, hv, hc, ha)
            (elim (Bool-cases (n.write_all writer (n.message_text (request q))).1) [
              | inl done ↦
                  rw (done, n2, second_lem _ res' res'.status_code refl)
                    (inl (refl, two_writes law w1 done))
              | inr lost ↦ rw lost (inr (refl, refl))
            ]),
      )
