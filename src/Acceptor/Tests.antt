-- ===== src/Acceptor/Tests.antt =====
-- An acceptor with a callback that gets one connection and runs out of descriptors.
use htcp_multithread.Prelude.{◌≡◌, refl, true, false, none, some, [], ◌∷◌, ◌>>=◌}
use htcp_multithread.InetAddress.{InetAddress}
use htcp_multithread.Socket
use htcp_multithread.Socket.{accepted, accept_failed, close_called}
use htcp_multithread.Channel
use htcp_multithread.Acceptor.{
  Acceptor, destroy, socket_called, channel_updated, channel_removed, connection_handed_on,
}
use htcp_multithread.Acceptor.Accepting.{accept_all, settled, accept_all_lem}

abbrev nowhere : InetAddress
nowhere = record { sin_addr = 0; sin_port = 0 }

abbrev client : InetAddress
client = record { sin_addr = 77; sin_port = 9 }

abbrev fresh : Acceptor
fresh = record {
  sockfd = 3;
  accept_channel = record {
    address = 1;
    fd = 3;
    events = 3;
    revents = 0;
    index = Channel.added;
    tie = none;
    tied = false;
  };
  callback_set = true;
  listening = true;
  effects = [];
}

accept_all_lem_example :
    settled (accept_all nowhere ((accepted 5 client, 0) ∷ (accept_failed, 24) ∷ []) fresh).effects
    ≡ connection_handed_on 5 client ∷ []
accept_all_lem_example =
    accept_all_lem nowhere ((accepted 5 client, 0) ∷ (accept_failed, 24) ∷ []) fresh

destroy-fresh :
    (destroy fresh >>= λ a. some a.effects)
    ≡ some (channel_updated 0 ∷ channel_removed ∷ socket_called (close_called 3) ∷ [])
unfolding destroy Channel.disable_all Socket.destroy
destroy-fresh = refl
