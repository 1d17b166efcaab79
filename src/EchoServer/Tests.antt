-- ===== src/EchoServer/Tests.antt =====
-- The server on a network whose byte order is the host's, and a connection that receives three bytes.
use htcp_multithread.Prelude.{
  none, ℕ, ◌+◌, ◌%◌, ◌^◌, ◌≡◌, refl, true, false, some, List, [], ◌∷◌, length, codes, arith, leb,
  if◌then◌else◌,
}
use htcp_multithread.Syscall.{ReadResult, received, sum, WriteResult, sent}
use htcp_multithread.Buffer
use htcp_multithread.Buffer.{Buffer}
use htcp_multithread.Channel
use htcp_multithread.Channel.{Channel}
use htcp_multithread.InetAddress
use htcp_multithread.InetAddress.{Network}
use htcp_multithread.TcpConnection.{TcpConnection, connected}
use htcp_multithread.EchoServer.{Surroundings, init}
use htcp_multithread.Socket
use htcp_multithread.Acceptor
use htcp_multithread.TcpServer.Constructed.{construct}

abbrev same_order : Network
same_order = record {
  htons = λ p. p % 2 ^ 16;
  ntohs = λ p. p % 2 ^ 16;
  inet_addr = λ ip. 0;
  inet_ntop = λ a. codes "127.0.0.1";
  ntohs-htons = λ p h. omega arith;
  ntohs_small = λ p. omega arith;
  inet_ntop_short = λ a. omega arith;
}

-- Channel objects that are not in use, each at its address.
abbrev store : ℕ → Channel
store a = record {
  address = a;
  fd = 0;
  events = 0;
  revents = 0;
  index = Channel.new;
  tie = none;
  tied = false;
}

-- All system calls succeed.
abbrev surroundings : Surroundings
surroundings = record {
  eventfd = some 6;
  socket = some 7;
  bound = some 0;
  loop = 500;
  wakeup_channel = 9;
  accept_channel = 11;
  start_loop = λ name. 600 + length name;
}

-- The port is taken.
port_taken :
    init same_order (some 7) none 11 500 (InetAddress.init same_order 8000 (codes "127.0.0.1")) []
    ≡ none
unfolding init construct Acceptor.init Socket.bind_address InetAddress.to_ip_port InetAddress.init
    htcp_multithread.Prelude.Decimal.decimal
port_taken = refl

abbrev empty_buffer : Buffer
empty_buffer = record {
  buffer = 0 ∷ 0 ∷ 0 ∷ 0 ∷ 0 ∷ 0 ∷ 0 ∷ 0 ∷ [];
  reader_index = 8;
  writer_index = 8;
}

abbrev quiet : TcpConnection
quiet = record {
  state = connected;
  reading = true;
  channel = record {
    address = 100;
    fd = 5;
    events = 3;
    revents = 0;
    index = Channel.added;
    tie = some 7;
    tied = true;
  };
  input_buffer = empty_buffer;
  output_buffer = empty_buffer;
  high_water_mark = 64;
  effects = [];
  errno = 0;
}

-- A kernel that has two bytes for whoever offers room for them, and one that takes what it is given.
abbrev two_bytes : List ℕ → ReadResult
two_bytes lens = if leb 2 (sum lens) then received (4 ∷ 5 ∷ []) else received []

abbrev take_all : List ℕ → WriteResult
take_all bytes = sent (length bytes)
