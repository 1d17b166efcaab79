-- ===== src/TcpServer/Ledger/Books.antt =====
-- What was established is what is open or was destroyed, after every step of a server.
use htcp_multithread.Prelude.{
  ℕ, ◌<◌, ◌≡◌, refl, ap, sym, subst, ◌∙◌, Option, none, some, List, [], ◌∷◌, ◌++◌, append_assoc,
  append-nil, dec_lt, arith, leb, true,
}
use mathlib.Core.List.Perm
use mathlib.Core.List.{Perm, perm_middle, perm_append_singleton}
use htcp_multithread.EventLoopThreadPool.RoundRobin.{IsInside, get_next_loop_lem}
use htcp_multithread.TcpServer.{
  TcpServer, Connection, Effect, connect_established, connect_destroyed, run_in_loop, queue_in_loop,
  new_connection, remove_connection_in_loop, int_max,
}
use htcp_multithread.TcpServer.Table.{
  IsTable, entries, new_connection_lem, remove_connection_in_loop_lem,
}
use htcp_multithread.TcpServer.Ledger.{
  established, destroyed, at_home, connects, closes, Reach, begun, later, established-append,
  destroyed-append, at_home-append,
}

-- The books are balanced: the table is sound, and what was established is what is open or was destroyed.
pub record IsBalanced (s : TcpServer) (live : List Connection) : Type 0 where
  pub is_table : IsTable s live
  pub inside : IsInside s.thread_pool
  pub balance : Perm (established s.effects) (at_home live ++ destroyed s.effects)

-- A new entry at the end of both books, and one that moves from one book to the other.
books_grow :
    (est live des : List (ℕ × Connection)) (x : ℕ × Connection)
    → Perm est (live ++ des)
    → Perm (est ++ x ∷ []) ((live ++ x ∷ []) ++ des)
books_grow est live des x p = rw (append_assoc live (x ∷ []) des) (
    Perm.trans (Perm.append_right (x ∷ []) p)
      (Perm.trans (perm_append_singleton x (live ++ des)) (Perm.symm (perm_middle live des))))

books_move :
    (est xs ys des : List (ℕ × Connection)) (x : ℕ × Connection)
    → Perm est ((xs ++ x ∷ ys) ++ des)
    → Perm est ((xs ++ ys) ++ (des ++ x ∷ []))
books_move est xs ys des x p = Perm.trans p (
    Perm.trans (Perm.append_right des (perm_middle xs ys)) (
      rw⁻¹ (append_assoc (xs ++ ys) des (x ∷ []))
        (Perm.symm (perm_append_singleton x ((xs ++ ys) ++ des)))))

abbrev names_of : List (List ℕ × Connection) → List Connection
names_of [] = []
names_of (e ∷ es) = e.1 ∷ names_of es

entries_injective : (xs ys : List Connection) → entries xs ≡ entries ys → xs ≡ ys
entries_injective xs ys e = sym (back xs) ∙ ap names_of e ∙ back ys
  where
    back : (zs : List Connection) → names_of (entries zs) ≡ zs
    back [] = refl
    back (c ∷ zs) = ap (◌∷◌ c) (back zs)

-- A connection that was taken in had a number below the largest one.
number_small :
    (s : TcpServer) {t : TcpServer} (getsockname : ℕ → Option ℕ) (sockfd peer_addr : ℕ)
    → IsInside s.thread_pool
    → new_connection getsockname sockfd peer_addr s ≡ some t
    → s.next_conn_id < int_max
unfolding new_connection
number_small s getsockname sockfd peer_addr inside e = elim (dec_lt s.next_conn_id int_max) [
  | yes small ↦ small
  | no large ↦
      (let full : leb int_max s.next_conn_id ≡ true = ground arith in
        let no_more : new_connection getsockname sockfd peer_addr s ≡ none =
          rw (get_next_loop_lem s.thread_pool inside, full) refl in
        absurd (cc (sym no_more ∙ e)))
]

balance_grows :
    (before after : List Effect) (live : List Connection) (c : Connection)
    → after ≡ before ++ run_in_loop c.io_loop (connect_established c) ∷ []
    → Perm (established before) (at_home live ++ destroyed before)
    → Perm (established after) (at_home (live ++ c ∷ []) ++ destroyed after)
balance_grows before after live c did p =
    let last = run_in_loop c.io_loop (connect_established c) ∷ [] in
    rw
      (
        did,
        established-append before last,
        destroyed-append before last,
        at_home-append live (c ∷ []),
        append-nil (destroyed before),
      )
      (books_grow (established before) (at_home live) (destroyed before) (c.io_loop, c) p)

balance_moves :
    (before after : List Effect) (xs : List Connection) (c : Connection) (ys : List Connection)
    → after ≡ before ++ queue_in_loop c.io_loop (connect_destroyed c) ∷ []
    → Perm (established before) (at_home (xs ++ c ∷ ys) ++ destroyed before)
    → Perm (established after) (at_home (xs ++ ys) ++ destroyed after)
balance_moves before after xs c ys did p =
    let last = queue_in_loop c.io_loop (connect_destroyed c) ∷ [] in
    let q : Perm (established before)
        ((at_home xs ++ (c.io_loop, c) ∷ at_home ys) ++ destroyed before) =
      subst (λ l. Perm (established before) (l ++ destroyed before)) (at_home-append xs (c ∷ ys))
        p in
    rw
      (
        did,
        established-append before last,
        destroyed-append before last,
        at_home-append xs ys,
        append-nil (established before),
      )
      (books_move (established before) (at_home xs) (at_home ys) (destroyed before) (c.io_loop, c)
        q)

connects-IsBalanced :
    {s t : TcpServer} {live : List Connection} (getsockname : ℕ → Option ℕ) (sockfd peer_addr : ℕ)
    → IsBalanced s live
    → new_connection getsockname sockfd peer_addr s ≡ some t
    → (c : Connection) × IsBalanced t (live ++ c ∷ [])
connects-IsBalanced {s} {t} {live} getsockname sockfd peer_addr v e =
    let (u, c, made, table, inside, same_fd, home, did) =
      new_connection_lem getsockname sockfd peer_addr v.is_table v.inside
        (number_small s getsockname sockfd peer_addr v.inside e) in
    let same : u ≡ t = cc (sym made ∙ e) in
    (
      c,
      subst (λ x. IsBalanced x (live ++ c ∷ [])) same
          (record {
            is_table = table;
            inside = inside;
            balance = balance_grows s.effects u.effects live c did v.balance;
          }),
    )

closes-IsBalanced :
    {s : TcpServer} {live : List Connection} (xs : List Connection) (c : Connection)
    (ys : List Connection)
    → IsBalanced s live
    → s.connections ≡ entries (xs ++ c ∷ ys)
    → IsBalanced (remove_connection_in_loop c s) (xs ++ ys)
closes-IsBalanced {s} {live} xs c ys v open_ =
    let same : live ≡ xs ++ c ∷ ys =
      entries_injective live (xs ++ c ∷ ys) (sym v.is_table.table ∙ open_) in
    let (table, did) =
      remove_connection_in_loop_lem xs c ys (subst (λ l. IsTable s l) same v.is_table) in
    record {
      is_table = table;
      inside = unfold remove_connection_in_loop in v.inside;
      balance = balance_moves s.effects (remove_connection_in_loop c s).effects xs c ys did (
          subst (λ l. Perm (established s.effects) (at_home l ++ destroyed s.effects)) same
            v.balance);
    }

pub Reach-IsBalanced :
    {s t : TcpServer} {live : List Connection}
    → IsBalanced s live
    → Reach s t
    → (open_ : List Connection) × IsBalanced t open_
Reach-IsBalanced {live} v begun = (live, v)
Reach-IsBalanced v (later r (connects getsockname sockfd peer_addr e)) =
    let (open_, w) = Reach-IsBalanced v r in
    let (c, u) = connects-IsBalanced getsockname sockfd peer_addr w e in (open_ ++ c ∷ [], u)
Reach-IsBalanced v (later r (closes xs c ys e)) =
    let (open_, w) = Reach-IsBalanced v r in (xs ++ ys, closes-IsBalanced xs c ys w e)
