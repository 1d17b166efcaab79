-- ===== src/TcpConnection/Ending/Tests.antt =====
-- A connection that closes twice.
use htcp_multithread.Prelude.{◌+◌, ◌≡◌, refl, true, false, some, [], arith}
use htcp_multithread.Syscall.{ReadsWithin, received, sent, optval}
use htcp_multithread.Buffer
use htcp_multithread.Channel.{handle_event_with_guard}
use htcp_multithread.TcpConnection.{TcpConnection, init, channel_callbacks}
use htcp_multithread.TcpConnection.Sound.{init-IsSound}
use htcp_multithread.TcpConnection.Runs.{callbacks}
use htcp_multithread.TcpConnection.Tally.{tally, is_closing}
use htcp_multithread.TcpConnection.Ending.Twice.{hung_up, closes_twice}

end-ReadsWithin : ReadsWithin (λ lens. received [])
end-ReadsWithin lens bytes = ground arith

closes_twice_example :
    (t : TcpConnection) × (handle_event_with_guard
        (channel_callbacks (callbacks true true) (λ lens. received []) (λ bytes. sent 0) (optval 0))
        hung_up
        9
        (init 100 5)
      ≡ some t)
    × (tally is_closing t.effects ≡ tally is_closing (init 100 5).effects + 2)
unfolding init Buffer.init
closes_twice_example =
    closes_twice true true false false (init 100 5) (λ lens. received []) (λ bytes. sent 0)
      (optval 0) 9 (init-IsSound 100 5) end-ReadsWithin (omega arith) refl
