-- ===== src/Ping/Tests.antt =====
-- Runs of the ping service.
use caaspay_core.Prelude.{◌≡◌, ◌^◌, refl, codes, decimal, digits}
use caaspay_core.Ping.{PingRequest, PingService, new_ping_service, rpc_ping, shown}

abbrev fresh : PingService
fresh = new_ping_service 7

abbrev hello : PingRequest
hello = record { message = codes "hello" }

first_pong : (rpc_ping hello fresh).0.response ≡ codes "pong 1"
unfolding rpc_ping shown decimal digits new_ping_service
first_pong = refl

-- The counter wraps to the least int32.
wrapped_pong :
    (rpc_ping hello (record fresh { ping_count = 2 ^ 31 })).0.response ≡ codes "pong -2147483647"
unfolding rpc_ping shown decimal digits new_ping_service
wrapped_pong = refl
