-- ===== src/Socket/Options.antt =====
-- The four setters of options, against a record of the four options as the kernel has them.
use htcp_multithread.Prelude.{
  ℕ, ◌≡◌, refl, ap, ◌∙◌, Bool, true, false, not, ◌&&◌, List, [], ◌∷◌, ◌++◌, ◌==◌, if◌then◌else◌,
  Bool-cases, inl, inr, arith,
}
use htcp_multithread.Socket.{
  Socket, SocketCall, bind_called, listen_called, accept_called, shutdown_called, setsockopt_called,
  close_called, error_logged, set_option, set_tcp_no_delay, set_reuse_addr, set_reuse_port,
  set_keep_alive,
}

-- The options of a socket, in the words of the program.
pub record Options : Type 0 where
  pub tcp_no_delay : Bool
  pub reuse_addr : Bool
  pub reuse_port : Bool
  pub keep_alive : Bool

pub data Setter : Type 0 where
  tcp_no_delay_set reuse_addr_set reuse_port_set keep_alive_set : Bool → Setter

-- What a setter means.
abbrev pub apply : Setter → Options → Options
apply (tcp_no_delay_set on) o = record o { tcp_no_delay = on }
apply (reuse_addr_set on) o = record o { reuse_addr = on }
apply (reuse_port_set on) o = record o { reuse_port = on }
apply (keep_alive_set on) o = record o { keep_alive = on }

-- What the code does for it.
abbrev pub set : Setter → Socket → Socket
set (tcp_no_delay_set on) s = set_tcp_no_delay on s
set (reuse_addr_set on) s = set_reuse_addr on s
set (reuse_port_set on) s = set_reuse_port on s
set (keep_alive_set on) s = set_keep_alive on s

abbrev pub set_all : List Setter → Socket → Socket
set_all [] s = s
set_all (x ∷ xs) s = set_all xs (set x s)

abbrev pub apply_all : List Setter → Options → Options
apply_all [] o = o
apply_all (x ∷ xs) o = apply_all xs (apply x o)

-- What the kernel keeps for an option: the value of the last call that names this descriptor, level and
-- option, or what it had before.
abbrev pub kept : (sockfd level optname : ℕ) → List SocketCall → ℕ → ℕ
kept sockfd level optname [] v = v
kept sockfd level optname (setsockopt_called f l o optval ∷ cs) v =
    kept sockfd level optname cs (if f == sockfd && (l == level && o == optname) then optval else v)
kept sockfd level optname (_ ∷ cs) v = kept sockfd level optname cs v

-- Whether an option is on in the kernel after the calls, if all options were off.
abbrev pub is_on : (sockfd level optname : ℕ) → List SocketCall → Bool
is_on sockfd level optname cs = not (kept sockfd level optname cs 0 == 0)

-- The kernel's view of the four options of a socket.
abbrev pub view : Socket → Options
view s = record {
  tcp_no_delay = is_on s.sockfd 6 1 s.calls;
  reuse_addr = is_on s.sockfd 1 2 s.calls;
  reuse_port = is_on s.sockfd 1 15 s.calls;
  keep_alive = is_on s.sockfd 1 9 s.calls;
}

kept-append :
    (sockfd level optname : ℕ) (cs ds : List SocketCall) (v : ℕ)
    → kept sockfd level optname (cs ++ ds) v
      ≡ kept sockfd level optname ds (kept sockfd level optname cs v)
kept-append sockfd level optname [] ds v = refl
kept-append sockfd level optname (setsockopt_called f l o optval ∷ cs) ds v =
    kept-append sockfd level optname cs ds
      (if f == sockfd && (l == level && o == optname) then optval else v)
kept-append sockfd level optname (bind_called f a ∷ cs) ds v =
    kept-append sockfd level optname cs ds v
kept-append sockfd level optname (listen_called f b ∷ cs) ds v =
    kept-append sockfd level optname cs ds v
kept-append sockfd level optname (accept_called f ∷ cs) ds v =
    kept-append sockfd level optname cs ds v
kept-append sockfd level optname (shutdown_called f h ∷ cs) ds v =
    kept-append sockfd level optname cs ds v
kept-append sockfd level optname (close_called f ∷ cs) ds v =
    kept-append sockfd level optname cs ds v
kept-append sockfd level optname (error_logged ∷ cs) ds v = kept-append sockfd level optname cs ds v

same_fd : (f : ℕ) → (f == f) ≡ true
same_fd f = ground arith

abbrev options : (a b c d : Bool) → Options
options a b c d = record { tcp_no_delay = a; reuse_addr = b; reuse_port = c; keep_alive = d }

ap_options :
    {a b c d a' b' c' d' : Bool}
    → a ≡ a'
    → b ≡ b'
    → c ≡ c'
    → d ≡ d'
    → options a b c d ≡ options a' b' c' d'
ap_options p q r s = rw (p, q, r, s) refl

read_back : (on : Bool) → not ((if on then 1 else 0) == 0) ≡ on
read_back true = refl
read_back false = refl

-- An option after one more call on the same socket.
is_on-set_option :
    (s : Socket) (l o level optname : ℕ) (on : Bool)
    → is_on s.sockfd l o (set_option level optname on s).calls
      ≡ (if level == l && optname == o then on else is_on s.sockfd l o s.calls)
is_on-set_option s l o level optname on =
    rw
      (
        kept-append s.sockfd l o s.calls
            (setsockopt_called s.sockfd level optname (if on then 1 else 0) ∷ []) 0,
        same_fd s.sockfd,
      )
      (elim (Bool-cases (level == l && optname == o)) [
        | inl e ↦ rw e (read_back on)
        | inr e ↦ rw e refl
      ])

-- One setter changes its own option in the kernel, and no other.
view-set : (x : Setter) (s : Socket) → view (set x s) ≡ apply x (view s)
unfolding set_tcp_no_delay set_reuse_addr set_reuse_port set_keep_alive
view-set (tcp_no_delay_set on) s =
    ap_options (is_on-set_option s 6 1 6 1 on) (is_on-set_option s 1 2 6 1 on)
      (is_on-set_option s 1 15 6 1 on) (is_on-set_option s 1 9 6 1 on)
view-set (reuse_addr_set on) s =
    ap_options (is_on-set_option s 6 1 1 2 on) (is_on-set_option s 1 2 1 2 on)
      (is_on-set_option s 1 15 1 2 on) (is_on-set_option s 1 9 1 2 on)
view-set (reuse_port_set on) s =
    ap_options (is_on-set_option s 6 1 1 15 on) (is_on-set_option s 1 2 1 15 on)
      (is_on-set_option s 1 15 1 15 on) (is_on-set_option s 1 9 1 15 on)
view-set (keep_alive_set on) s =
    ap_options (is_on-set_option s 6 1 1 9 on) (is_on-set_option s 1 2 1 9 on)
      (is_on-set_option s 1 15 1 9 on) (is_on-set_option s 1 9 1 9 on)

-- Over any sequence of calls of the four setters, the kernel's options are those that the program asked
-- for last, each option by its own setter, if they were off to begin with.
pub view-set_all : (xs : List Setter) (s : Socket) → view (set_all xs s) ≡ apply_all xs (view s)
view-set_all [] s = refl
view-set_all (x ∷ xs) s = view-set_all xs (set x s) ∙ ap (apply_all xs) (view-set x s)
