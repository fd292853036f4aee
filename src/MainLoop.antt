-- ===== src/MainLoop.antt =====
-- src/main.c: the loop of the server over its connections. The system's calls and the connections'
-- own code are the operations of an interface, on a state W of the world outside.
pub mod Arrays
pub mod Laws
use filemanager_httpd.Common.{
  ℕ, zero, suc, ◌+◌, ◌-◌, ◌*◌, ◌/◌, ◌%◌, ◌^◌, ◌≤◌, ◌<◌, min, ◌≡◌, refl, sym, ap, ◌∙◌, ◌≢◌, ◌↔◌, ◌⊎◌,
  inl, inr, Bool, true, false, not, ◌&&◌, ◌||◌, Option, none, some, List, [], ◌∷◌, ◌++◌, map,
  append-nil, append_assoc, arith, ltb, leb, ◌==◌, if◌then◌else◌, ltb→lt, lt→ltb, le→ltb, leb→le,
  ==_iff, Bool-cases, Option-cases, length, get_elem?, get_or, take, drop, replicate, is_empty, All,
  length-append, take-append-drop, length-drop, All-append,
}
use filemanager_httpd.ServerConnection.Turn.{
  ConnProcessingResult, conn_to_close, conn_idle, conn_busy,
}

-- What the loop calls: `drs_setReadFd` on the listening socket, `drs_select`, `accept` with
-- `conn_new` (none where no client waits), `conn_processDataReady` and `conn_free`.
pub record LoopOps (C W : Type 0) : Type 0 where
  pub watch_listener : W → W
  pub select : W → W
  pub accept : W → Option C × W
  pub process : C → Bool → W → C × ConnProcessingResult × W
  pub free : C → W → W

-- `xs[i] = x`, inside the array.
abbrev pub set_elem : {A : Type 0} → ℕ → A → List A → List A
set_elem i x [] = []
set_elem zero x (y ∷ ys) = x ∷ ys
set_elem (suc i) x (y ∷ ys) = y ∷ set_elem i x ys

-- The two arrays, of which the first `conn_count` entries are in use before a pass, with the
-- counters of the pass.
pub record Pass (C W : Type 0) : Type 0 where
  pub connections : List C
  pub busy_connections : List C
  pub idle_conn_count : ℕ
  pub world : W

module _ {C W : Type 0} (ops : LoopOps C W) where
  -- `while( connCount < maxConnCount && accept(...) >= 0 )`, with the number of free places.
  unfoldable pub accept_loop : ℕ → List C → W → List C × W
  accept_loop zero connections w = (connections, w)
  accept_loop (suc room) connections w =
      let (accepted, v) = ops.accept w in
      elim accepted [
        | none ↦ (connections, v)
        | some c ↦ accept_loop room (connections ++ c ∷ []) v
      ]

  -- What the loop does with the connection that stands at `i`, by its result.
  unfoldable pub settle : ℕ → C × ConnProcessingResult × W → Pass C W → Pass C W
  settle i (c, conn_busy, w) p = record p {
    connections = set_elem i c p.connections;
    busy_connections = p.busy_connections ++ c ∷ [];
    world = w;
  }
  settle i (c, conn_idle, w) p =
      let held = set_elem i c p.connections in
      record p {
        connections = if i == p.idle_conn_count then held else set_elem p.idle_conn_count c held;
        idle_conn_count = suc p.idle_conn_count;
        world = w;
      }
  settle i (c, conn_to_close, w) p = record p {
    connections = set_elem i c p.connections;
    world = ops.free c w;
  }

  -- `while( i < connCount )`, with the number of connections that are left.
  unfoldable pub pass_loop : Bool → ℕ → ℕ → Pass C W → Pass C W
  unfolding settle
  pass_loop at_max zero i p = p
  pass_loop at_max (suc left) i p = elim (get_elem? p.connections i) [
    | none ↦ p
    | some c ↦
        let result = ops.process c (at_max && i == length p.busy_connections) p.world in
        pass_loop at_max left (suc i) (settle i result p)
  ]

  -- `connections[idleConnCount+i] = busyConnections[i]` for each of them.
  unfoldable pub put_busy : ℕ → List C → List C → List C
  put_busy i [] connections = connections
  put_busy i (b ∷ bs) connections = put_busy (suc i) bs (set_elem i b connections)

  -- The pass over all connections, and what is in use of the array behind it.
  unfoldable pub process_all : ℕ → List C → W → List C × W
  unfolding pass_loop put_busy
  process_all max_conn_count connections w =
      let p = pass_loop (length connections == max_conn_count) (length connections) 0 (record {
        connections = connections;
        busy_connections = [];
        idle_conn_count = 0;
        world = w;
      }) in
      (
        take (p.idle_conn_count + length p.busy_connections)
            (put_busy p.idle_conn_count p.busy_connections p.connections),
        p.world,
      )

  -- One turn of `mainloop`.
  unfoldable pub turn : ℕ → List C × W → List C × W
  turn max_conn_count (connections, w) =
      let u = if ltb (length connections) max_conn_count then ops.watch_listener w else w in
      let accepted = accept_loop (max_conn_count - length connections) connections (ops.select u) in
      process_all max_conn_count accepted.0 accepted.1

  -- `mainloop_inetd`: the only connection until it is to close; `none` if it is not by then.
  unfoldable pub inetd_loop : ℕ → C → W → Option W
  inetd_loop zero c w = none
  inetd_loop (suc fuel) c w =
      let (d, result, v) = ops.process c false w in
      let rest = inetd_loop fuel d (ops.select v) in
      elim result [ conn_to_close ↦ some (ops.free d v) | conn_idle ↦ rest | conn_busy ↦ rest ]
