-- ===== src/Sip/Library.antt =====
-- What the code calls of `rsip`. The laws state the documented behaviour of the crate: a header
-- accessor returns the first header of its kind, `unique_push` leaves exactly the new header of
-- its kind, and the text of a `CSeq` reads back as its parts.
use simple_sip_rs.Prelude.{ℕ, ◌≡◌, List, [], ◌∷◌, Option, none, some, Text, if◌then◌else◌}
use simple_sip_rs.Sip.Types.{
  Method, Version, Param, tag, Uri, NameAddr, Via, Authorization, Challenge, HeaderKind, same_kind,
  Header, Headers,
}

pub record Rsip : Type 0 where
  -- `Default::default()` of a URI and of a version.
  pub uri_default : Uri
  pub version_default : Version
  -- `into()` of a typed header, and `into_typed()`, `seq()`, `method()`, `length()`.
  pub via_text : Via → Text
  pub via_typed : Text → Option Via
  pub address_text : NameAddr → Text
  pub address_typed : Text → Option NameAddr
  pub cseq_text : ℕ → Method → Text
  pub cseq_seq : Text → Option ℕ
  pub cseq_method : Text → Option Method
  -- `mut_seq`
  pub cseq_with_seq : Text → ℕ → Option Text
  pub allow_text : List Method → Text
  pub content_length_text : ℕ → Text
  pub length_of : Text → Option ℕ
  pub max_forwards_default : Text
  pub sdp_content_type : Text
  pub sdp_accept : Text
  pub authorization_text : Authorization → Text
  pub challenge_typed : Text → Option Challenge
  pub method_text : Method → Text
  pub tag_of : List Param → Option Text
  -- `call_id_header()` and the like, and `unique_push`.
  pub find_header : HeaderKind → Headers → Option Text
  pub unique_push : Header → Headers → Headers

-- The documented behaviour that theorems rely on.
pub record IsRsip (r : Rsip) : Type 0 where
  pub find-nil : (k : HeaderKind) → r.find_header k [] ≡ none
  pub find-cons :
      (k : HeaderKind) (h : Header) (hs : Headers)
      → r.find_header k (h ∷ hs) ≡ (if same_kind h.kind k then some h.value else r.find_header k hs)
  pub find-unique_push :
      (k : HeaderKind) (h : Header) (hs : Headers)
      → r.find_header k (r.unique_push h hs)
        ≡ (if same_kind h.kind k then some h.value else r.find_header k hs)
  pub cseq_read_seq : (n : ℕ) (m : Method) → r.cseq_seq (r.cseq_text n m) ≡ some n
  pub cseq_read_method : (n : ℕ) (m : Method) → r.cseq_method (r.cseq_text n m) ≡ some m
  -- `mut_seq` keeps the method.
  pub cseq_with_seq_lem :
      (n k : ℕ) (m : Method) → r.cseq_with_seq (r.cseq_text n m) k ≡ some (r.cseq_text k m)
  pub tag_read : (t : Text) (ps : List Param) → r.tag_of (tag t ∷ ps) ≡ some t
