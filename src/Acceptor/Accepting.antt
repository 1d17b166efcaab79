-- ===== src/Acceptor/Accepting.antt =====
-- What becomes of the descriptors that the kernel hands out.
use htcp_multithread.Prelude.{
  ℕ, ◌≡◌, refl, ap, sym, ◌∙◌, Bool, true, false, some, List, [], ◌∷◌, ◌++◌, ◌==◌, if◌then◌else◌,
  ◌>>=◌, append_assoc, append-nil,
}
use htcp_multithread.Syscall.{emfile}
use htcp_multithread.InetAddress.{InetAddress}
use htcp_multithread.Socket
use htcp_multithread.Socket.{
  AcceptCall, accepted, accept_failed, bind_called, listen_called, setsockopt_called, sol_socket,
  so_reuseaddr, so_reuseport,
}
use htcp_multithread.Channel
use htcp_multithread.Channel.{Channel}
use htcp_multithread.Channel.Events.{Waits}
use htcp_multithread.Acceptor.{
  Acceptor, Effect, init, listen, handle_read, socket_called, channel_updated, channel_removed,
  connection_handed_on, descriptor_closed, error_logged, limit_logged,
}

-- `handleRead` once for each result of `accept4` and the `errno` after it.
abbrev pub accept_all : InetAddress → List (AcceptCall × ℕ) → Acceptor → Acceptor
accept_all peer_addr [] a = a
accept_all peer_addr (r ∷ rs) a = accept_all peer_addr rs (handle_read r.0 peer_addr r.1 a)

-- The effects that settle a descriptor.
abbrev pub settled : List Effect → List Effect
settled [] = []
settled (connection_handed_on fd peer_addr ∷ es) = connection_handed_on fd peer_addr ∷ settled es
settled (descriptor_closed fd ∷ es) = descriptor_closed fd ∷ settled es
settled (_ ∷ es) = settled es

-- What each descriptor that the kernel hands out has to become.
abbrev pub outcomes : (callback_set : Bool) → List (AcceptCall × ℕ) → List Effect
outcomes callback_set [] = []
outcomes true ((accepted fd addr, errno) ∷ rs) = connection_handed_on fd addr ∷ outcomes true rs
outcomes false ((accepted fd addr, errno) ∷ rs) = descriptor_closed fd ∷ outcomes false rs
outcomes callback_set ((accept_failed, errno) ∷ rs) = outcomes callback_set rs

settled-append : (xs ys : List Effect) → settled (xs ++ ys) ≡ settled xs ++ settled ys
settled-append [] ys = refl
settled-append (socket_called call ∷ es) ys = settled-append es ys
settled-append (channel_updated e ∷ es) ys = settled-append es ys
settled-append (channel_removed ∷ es) ys = settled-append es ys
settled-append (connection_handed_on fd peer_addr ∷ es) ys =
    ap (◌∷◌ (connection_handed_on fd peer_addr)) (settled-append es ys)
settled-append (descriptor_closed fd ∷ es) ys =
    ap (◌∷◌ (descriptor_closed fd)) (settled-append es ys)
settled-append (error_logged e ∷ es) ys = settled-append es ys
settled-append (limit_logged ∷ es) ys = settled-append es ys

module _ (peer_addr : InetAddress) where
  handle_read-settled :
      (r : AcceptCall × ℕ) (a : Acceptor)
      → settled (handle_read r.0 peer_addr r.1 a).effects
        ≡ settled a.effects ++ outcomes a.callback_set (r ∷ [])
  unfolding handle_read Socket.accept
  handle_read-settled (accepted fd addr, errno) a =
      settled-append a.effects _ ∙ ap (◌++◌ (settled a.effects)) (one a.callback_set)
    where
      one :
          (b : Bool)
          → settled ((if b then connection_handed_on fd addr else descriptor_closed fd) ∷ [])
            ≡ outcomes b ((accepted fd addr, errno) ∷ [])
      one true = refl
      one false = refl
  handle_read-settled (accept_failed, errno) a =
      settled-append a.effects _
      ∙ ap (◌++◌ (settled a.effects)) (none_left (errno == emfile) a.callback_set)
    where
      none_left :
          (b h : Bool)
          → settled (error_logged errno ∷ (if b then limit_logged ∷ [] else []))
            ≡ outcomes h ((accept_failed, errno) ∷ [])
      none_left true true = refl
      none_left true false = refl
      none_left false true = refl
      none_left false false = refl

  handle_read-callback_set :
      (r : AcceptCall) (errno : ℕ) (a : Acceptor)
      → (handle_read r peer_addr errno a).callback_set ≡ a.callback_set
  unfolding handle_read
  handle_read-callback_set r errno a = refl

  -- No descriptor leaks: of any sequence of results of `accept4`, every descriptor is handed to the
  -- callback once and in order, with the address that the kernel gave for it, or, where no callback
  -- is set, closed once; failures, EMFILE among them, settle none.
  pub accept_all_lem :
      (rs : List (AcceptCall × ℕ)) (a : Acceptor)
      → settled (accept_all peer_addr rs a).effects
        ≡ settled a.effects ++ outcomes a.callback_set rs
  accept_all_lem [] a = sym (append-nil (settled a.effects))
  accept_all_lem (r ∷ rs) a =
      accept_all_lem rs (handle_read r.0 peer_addr r.1 a)
      ∙ rw (handle_read-settled r a, handle_read-callback_set r.0 r.1 a)
          (append_assoc (settled a.effects) _ _)
      ∙ ap (◌++◌ (settled a.effects)) (joined r a.callback_set)
    where
      joined :
          (r : AcceptCall × ℕ) (h : Bool)
          → outcomes h (r ∷ []) ++ outcomes h rs ≡ outcomes h (r ∷ rs)
      joined (accepted fd addr, errno) true = refl
      joined (accepted fd addr, errno) false = refl
      joined (accept_failed, errno) true = refl
      joined (accept_failed, errno) false = refl

-- A new acceptor is bound before it listens and listens before the loop watches it, and then waits
-- for reading only. Whatever `reuseport` asks for, the port is shared.
pub init-listen :
    (fd address : ℕ) (listen_addr : InetAddress) (reuseport : Bool)
    → (a : Acceptor) × ((init (some fd) (some 0) address listen_addr reuseport >>= listen (some 0))
        ≡ some a)
      × Waits true false a.accept_channel
      × (a.accept_channel.fd ≡ fd)
      × (a.listening ≡ true)
      × (a.effects
          ≡ socket_called (setsockopt_called fd sol_socket so_reuseaddr 1)
            ∷ socket_called (setsockopt_called fd sol_socket so_reuseport 1)
            ∷ socket_called (bind_called fd listen_addr)
            ∷ socket_called (listen_called fd 1024)
            ∷ channel_updated Channel.read_event
            ∷ [])
unfolding init listen Channel.init Channel.enable_reading Socket.bind_address Socket.listen
    Socket.set_reuse_addr Socket.set_reuse_port
init-listen fd address listen_addr reuseport = (_, refl, refl, refl, refl, refl)
