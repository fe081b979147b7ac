-- ===== src/Mechanism/Tests.antt =====
-- The theorems on the metadata of a DEALER socket that connects to a ROUTER socket.
use zmq_cn_comment.Base.{
  ℕ, ◌+◌, ◌≡◌, refl, true, false, ◌&&◌, ◌||◌, [], ◌∷◌, List, none, some, if◌then◌else◌, length, ltb,
  take, ◌==◌, arith,
}
use zmq_cn_comment.Errno.{eproto}
use zmq_cn_comment.Mechanism.Types.{zmq_dealer, zmq_router}
use zmq_cn_comment.Mechanism.{
  Property, Options, Mechanism, add_basic_properties, basic_properties_len, parse_metadata,
  c_string,
}
use zmq_cn_comment.Mechanism.Metadata.{all_fit, take_all, written, length-written}
use zmq_cn_comment.Mechanism.RoundTrip.{properties, parse_metadata-add_basic_properties}
use zmq_cn_comment.Mechanism.Truncated.{parse_metadata-take}

abbrev dealer : Options
dealer = record {
  type = zmq_dealer;
  recv_routing_id = false;
  routing_id = 1 ∷ 2 ∷ [];
  app_metadata = (88 ∷ 45 ∷ 97 ∷ [], 98 ∷ 0 ∷ 99 ∷ []) ∷ [];
}

abbrev router : Mechanism
router = record {
  options = record {
    type = zmq_router;
    recv_routing_id = true;
    routing_id = [];
    app_metadata = [];
  };
  routing_id = [];
  zap_properties = [];
  zmtp_properties = [];
}

dealer_fits : all_fit (properties dealer) ≡ true
unfolding c_string
dealer_fits = refl

parse_metadata-add_basic_properties_example :
    (bs : List ℕ) × (add_basic_properties (basic_properties_len dealer) dealer ≡ some bs)
    × (length bs ≡ basic_properties_len dealer)
    × (parse_metadata false bs router ≡ take_all false (properties dealer) router)
parse_metadata-add_basic_properties_example =
    parse_metadata-add_basic_properties dealer false router dealer_fits

-- A name of one byte with a value of two.
abbrev short_property : Property
short_property = (88 ∷ [], 1 ∷ 2 ∷ [])

parse_metadata-take_example : parse_metadata false (take 2 (written short_property)) router ≡ (
  if ((2 == length (short_property.0) + 1) && ltb 0 (length (short_property.0)))
        || (2 == length (short_property.0) + 5)
      then none
      else some eproto,
  router,
)
parse_metadata-take_example =
    parse_metadata-take short_property 2 false router refl (omega arith)
      (omega (arith, length-written short_property))
