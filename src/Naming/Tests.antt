-- ===== src/Naming/Tests.antt =====
-- Runs of the stream naming, and its theorems at concrete inputs.
use caaspay_core.Prelude.{◌≡◌, refl, to_lower, none, text_eq, codes, [], ok}
use caaspay_core.Naming.{
  StreamConfig, stream_type_rpc, normalize, validate, build_stream_name, parse_stream_name,
}
use caaspay_core.Naming.RoundTrip.{parse-build}

-- The configuration of the comment that ends the source file.
abbrev get_rates : StreamConfig
get_rates = record {
  kind = stream_type_rpc;
  service = codes "fxrate";
  method = codes "GetRates";
  instance_id = codes "instance-01";
}

get_rates_name : build_stream_name get_rates ≡ codes "rpc:fxrate:getrates:instance-01"
unfolding build_stream_name to_lower
get_rates_name = refl

abbrev shared_rates : StreamConfig
shared_rates = record get_rates { instance_id = [] }

shared_rates_name : build_stream_name shared_rates ≡ codes "rpc:fxrate:getrates"
unfolding build_stream_name to_lower
shared_rates_name = refl

get_rates_valid : validate get_rates ≡ none
unfolding validate text_eq
get_rates_valid = refl

parse-build_example : parse_stream_name (build_stream_name get_rates) ≡ ok (normalize get_rates)
parse-build_example = parse-build get_rates get_rates_valid
