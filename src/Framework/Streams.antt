-- ===== src/Framework/Streams.antt =====
-- A caller and the method that it names meet on one stream.
use caaspay_core.Prelude.{
  ◌≡◌, refl, false, Text, codes, List, [], ◌∷◌, ◌++◌, is_empty, has_prefix, trim_prefix,
}
use caaspay_core.Naming.{stream_type_rpc}
use caaspay_core.Service.{method_stream}
use caaspay_core.Framework.{context_stream_name, chosen_service, build_rpc_stream_name}

trim-rpc : (s : Text) → trim_prefix (codes "RPC_" ++ s) (codes "RPC_") ≡ s
unfolding trim_prefix has_prefix
trim-rpc s = refl

served_on :
    (service method : Text)
    → context_stream_name stream_type_rpc service method
      ≡ method_stream stream_type_rpc (codes "RPC_") service (codes "RPC_" ++ method)
unfolding context_stream_name method_stream
served_on service method = rw (trim-rpc method) refl

-- The stream that BuildRPCStreamName gives is the one on which the method `RPC_…` is registered: that
-- of the named service, or of the caller's own where no name or an empty one is given.
pub build_rpc_stream_name-method_stream :
    (own service method : Text) (more : List Text)
    → (build_rpc_stream_name own method []
        ≡ method_stream stream_type_rpc (codes "RPC_") own (codes "RPC_" ++ method))
      × (build_rpc_stream_name own method ([] ∷ more)
          ≡ method_stream stream_type_rpc (codes "RPC_") own (codes "RPC_" ++ method))
      × (is_empty service ≡ false
          → build_rpc_stream_name own method (service ∷ more)
            ≡ method_stream stream_type_rpc (codes "RPC_") service (codes "RPC_" ++ method))
unfolding build_rpc_stream_name chosen_service
build_rpc_stream_name-method_stream own service method more =
    (served_on own method, served_on own method, λ h. rw h (served_on service method))
