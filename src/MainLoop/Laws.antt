-- ===== src/MainLoop/Laws.antt =====
-- src/main.c: the order of the connections after a pass, and their number.
use filemanager_httpd.Common.{
  ℕ, zero, suc, ◌+◌, ◌-◌, ◌≤◌, ◌≡◌, refl, sym, ap, ◌∙◌, Bool, true, false, ◌&&◌, Option, none, some,
  List, [], ◌∷◌, ◌++◌, append-nil, append_assoc, arith, ltb, ◌==◌, if◌then◌else◌, ==_iff, length,
  get_elem?, take, length-append,
}
use filemanager_httpd.ServerConnection.Turn.{
  ConnProcessingResult, conn_to_close, conn_idle, conn_busy,
}
use filemanager_httpd.MainLoop.{
  LoopOps, set_elem, Pass, accept_loop, settle, pass_loop, put_busy, process_all, turn,
}
use filemanager_httpd.MainLoop.Arrays.{
  set_elem-append, take-append, get_elem?-behind, set_elem-behind,
}

-- What a pass is to leave: the idle connections, the busy ones, and the world.
pub record Outcome (C W : Type 0) : Type 0 where
  pub idle : List C
  pub busy : List C
  pub world : W

abbrev is_busy : ConnProcessingResult → Bool
is_busy conn_busy = true
is_busy _ = false

abbrev add : {C W : Type 0} → C → ConnProcessingResult → Outcome C W → Outcome C W
add c conn_busy o = record o { busy = c ∷ o.busy }
add c conn_idle o = record o { idle = c ∷ o.idle }
add c conn_to_close o = o

module _ {C W : Type 0} (ops : LoopOps C W) where
  abbrev after : C → ConnProcessingResult → W → W
  after c conn_to_close w = ops.free c w
  after c _ w = w

  -- The connections one after the other, each told to close if it is idle where the array is full
  -- and every connection before it is busy. A connection that is to close is freed.
  unfoldable pub outcome : Bool → Bool → List C → W → Outcome C W
  outcome at_max all_busy [] w = record { idle = []; busy = []; world = w }
  outcome at_max all_busy (c ∷ cs) w =
      let (d, result, v) = ops.process c (at_max && all_busy) w in
      add d result (outcome at_max (all_busy && is_busy result) cs (after d result v))

  -- The copies of the busy connections replace what stands behind the idle ones.
  take-put_busy :
      (n : ℕ) (idle bs junk : List C)
      → n ≡ length idle
      → length bs ≤ length junk
      → take (n + length bs) (put_busy ops n bs (idle ++ junk)) ≡ idle ++ bs
  unfolding put_busy
  take-put_busy n idle [] junk e k =
      ap (λ m. take m (idle ++ junk)) (omega arith) ∙ take-append idle junk ∙ sym (append-nil idle)
  take-put_busy n idle (b ∷ bs) [] e k = absurd (omega arith)
  take-put_busy n idle (b ∷ bs) (j ∷ junk) e k =
      ap (λ m. take m (put_busy ops (suc n) bs (set_elem n b (idle ++ j ∷ junk)))) (omega arith)
      ∙ ap
          (λ m.
            take (suc n + length bs) (put_busy ops (suc n) bs (set_elem m b (idle ++ j ∷ junk))))
          e
      ∙ ap (λ cs. take (suc n + length bs) (put_busy ops (suc n) bs cs))
          (set_elem-append idle b j junk ∙ sym (append_assoc idle (b ∷ []) junk))
      ∙ take-put_busy (suc n) (idle ++ b ∷ []) bs junk (omega (arith, length-append idle (b ∷ [])))
          (omega arith)
      ∙ append_assoc idle (b ∷ []) bs

  abbrev finish : Pass C W → List C × W
  finish p = (
    take (p.idle_conn_count + length p.busy_connections)
        (put_busy ops p.idle_conn_count p.busy_connections p.connections),
    p.world,
  )

  abbrev state : List C → List C → ℕ → W → Pass C W
  state connections bs n w = record {
    connections = connections;
    busy_connections = bs;
    idle_conn_count = n;
    world = w;
  }

  -- What the shift of an idle connection leaves between the idle ones and the rest.
  abbrev shifted : List C → C → List C
  shifted [] c = []
  shifted (j ∷ junk) c = junk ++ c ∷ []

  shifted-length : (junk : List C) (c : C) → length (shifted junk c) ≡ length junk
  shifted-length [] c = refl
  shifted-length (j ∷ junk) c = omega (arith, length-append junk (c ∷ []))

  settle-idle :
      (i n : ℕ) (idle junk : List C) (c d : C) (cs ws : List C)
      → ws ≡ idle ++ (junk ++ c ∷ cs)
      → n ≡ length idle
      → i ≡ length idle + length junk
      → (if i == n then set_elem i d ws else set_elem n d (set_elem i d ws))
        ≡ (idle ++ d ∷ []) ++ (shifted junk d ++ cs)
  settle-idle i n idle [] c d cs ws p e f =
      rw ((==_iff i n).1 (omega arith))
        (ap (set_elem i d) p ∙ set_elem-behind i idle [] d c cs f ∙ simp append_assoc)
  settle-idle i n idle (j ∷ junk) c d cs ws p e f =
      ground arith
      ∙ ap (set_elem n d) (ap (set_elem i d) p ∙ set_elem-behind i idle (j ∷ junk) d c cs f)
      ∙ set_elem-behind n idle [] d j (junk ++ d ∷ cs) (omega arith)
      ∙ simp append_assoc

  -- The pass over `cs`, from wherever the loop stands.
  abbrev Settles : Bool → List C → Type 0
  Settles at_max cs =
      (b : Bool) (idle junk bs ws : List C) (i n : ℕ) (w : W)
      → ws ≡ idle ++ (junk ++ cs)
      → b ≡ (i == length bs)
      → n ≡ length idle
      → i ≡ length idle + length junk
      → length bs ≤ length junk
      → (let o = outcome at_max b cs w in
          finish (pass_loop ops at_max (length cs) i (state ws bs n w))
          ≡ ((idle ++ o.idle) ++ (bs ++ o.busy), o.world))

  settle-Settles :
      (at_max : Bool) (c : C) (cs idle junk bs ws : List C) (i n : ℕ)
      → Settles at_max cs
      → ws ≡ idle ++ (junk ++ c ∷ cs)
      → n ≡ length idle
      → i ≡ length idle + length junk
      → length bs ≤ length junk
      → (q : C × ConnProcessingResult × W) (w : W)
      → (let o = outcome at_max (i == length bs && is_busy q.1) cs (after q.0 q.1 q.2) in
          let o' = add q.0 q.1 o in
          finish (pass_loop ops at_max (length cs) (suc i) (settle ops i q (state ws bs n w)))
          ≡ ((idle ++ o'.idle) ++ (bs ++ o'.busy), o'.world))
  unfolding settle
  settle-Settles at_max c cs idle junk bs ws i n r p d e k (c', conn_busy, v) w =
      r (i == length bs && true) idle (junk ++ c' ∷ []) (bs ++ c' ∷ []) (set_elem i c' ws) (suc i) n
        v (ap (set_elem i c') p ∙ set_elem-behind i idle junk c' c cs e ∙ simp append_assoc)
        (ground (arith, length-append bs (c' ∷ []))) d (omega (arith, length-append junk (c' ∷ [])))
        (omega (arith, length-append junk (c' ∷ []), length-append bs (c' ∷ [])))
      ∙ simp append_assoc
  settle-Settles at_max c cs idle junk bs ws i n r p d e k (c', conn_idle, v) w =
      r (i == length bs && false) (idle ++ c' ∷ []) (shifted junk c') bs
        (if i == n then set_elem i c' ws else set_elem n c' (set_elem i c' ws)) (suc i) (suc n) v
        (settle-idle i n idle junk c c' cs ws p d e) (ground arith)
        (omega (arith, length-append idle (c' ∷ [])))
        (omega (arith, length-append idle (c' ∷ []), shifted-length junk c'))
        (omega (arith, shifted-length junk c'))
      ∙ simp append_assoc
  settle-Settles at_max c cs idle junk bs ws i n r p d e k (c', conn_to_close, v) w =
      r (i == length bs && false) idle (junk ++ c' ∷ []) bs (set_elem i c' ws) (suc i) n
        (ops.free c' v)
        (ap (set_elem i c') p ∙ set_elem-behind i idle junk c' c cs e ∙ simp append_assoc)
        (ground arith) d (omega (arith, length-append junk (c' ∷ [])))
        (omega (arith, length-append junk (c' ∷ [])))

  pass_loop_lem : (at_max : Bool) (cs : List C) → Settles at_max cs
  unfolding pass_loop outcome
  pass_loop_lem at_max [] b idle junk bs ws i n w p q d e k =
      ap (λ vs. (vs, w))
        (ap (λ vs. take (n + length bs) (put_busy ops n bs vs))
            (p ∙ ap (λ vs. idle ++ vs) (append-nil junk))
          ∙ take-put_busy n idle bs junk d k
          ∙ simp append-nil)
  pass_loop_lem at_max (c ∷ cs) b idle junk bs ws i n w p q d e k =
      rw (q, ap (λ vs. get_elem? vs i) p ∙ get_elem?-behind i idle junk c cs e, pass_loop)
        (settle-Settles at_max c cs idle junk bs ws i n (pass_loop_lem at_max cs) p d e k
          (ops.process c (at_max && i == length bs) w) w)

  -- A pass leaves the idle connections in their order, and behind them the busy ones in theirs; the
  -- array is worked on in place, and those that are at their end are freed. The connections are
  -- handled one after the other, and one is told to close if idle only where the array was full and
  -- every connection before it turned out busy.
  pub process_all_lem :
      (max_conn_count : ℕ) (connections : List C) (w : W)
      → (let o = outcome (length connections == max_conn_count) true connections w in
          process_all ops max_conn_count connections w ≡ (o.idle ++ o.busy, o.world))
  unfolding process_all
  process_all_lem max_conn_count connections w =
      pass_loop_lem (length connections == max_conn_count) connections true [] [] [] connections 0 0
        w refl refl refl refl (omega arith)

  outcome-length :
      (at_max b : Bool) (cs : List C) (w : W)
      → (let o = outcome at_max b cs w in length (o.idle ++ o.busy) ≤ length cs)
  unfolding outcome
  outcome-length at_max b [] w = omega arith
  outcome-length at_max b (c ∷ cs) w =
      added (ops.process c (at_max && b) w) (λ d v. outcome-length at_max d cs v)
    where
      added :
          (q : C × ConnProcessingResult × W)
          → ((d : Bool) (v : W)
              → (let o = outcome at_max d cs v in length (o.idle ++ o.busy) ≤ length cs))
          → (let o = add q.0 q.1 (outcome at_max (b && is_busy q.1) cs (after q.0 q.1 q.2)) in
              length (o.idle ++ o.busy) ≤ suc (length cs))
      added (c', conn_busy, v) h =
          (let o = outcome at_max (b && true) cs v in
            omega (
              arith,
              h (b && true) v,
              length-append o.idle o.busy,
              length-append o.idle (c' ∷ o.busy),
            ))
      added (c', conn_idle, v) h = omega (arith, h (b && false) v)
      added (c', conn_to_close, v) h = omega (arith, h (b && false) (ops.free c' v))

  accept_loop-length :
      (room : ℕ) (connections : List C) (w : W)
      → length (accept_loop ops room connections w).0 ≤ length connections + room
  unfolding accept_loop
  accept_loop-length zero connections w = omega arith
  accept_loop-length (suc room) connections w = added (ops.accept w) (accept_loop-length room)
    where
      added :
          (a : Option C × W)
          → ((cs : List C) (v : W) → length (accept_loop ops room cs v).0 ≤ length cs + room)
          → length (
              (elim a.0 as (λ _. List C × W) [
                | none ↦ (connections, a.1)
                | some c ↦ accept_loop ops room (connections ++ c ∷ []) a.1
              ]).0)
            ≤ length connections + suc room
      added (none, v) h = omega arith
      added (some c, v) h =
          omega (arith, h (connections ++ c ∷ []) v, length-append connections (c ∷ []))

  process_all-length :
      (max_conn_count : ℕ) (connections : List C) (w : W)
      → length (process_all ops max_conn_count connections w).0 ≤ length connections
  process_all-length max_conn_count connections w =
      rw (process_all_lem max_conn_count connections w)
        (outcome-length (length connections == max_conn_count) true connections w)

  -- A turn never holds more connections than the maximum, which is how many the arrays have room for:
  -- not where it accepts clients, and not when it ends.
  pub turn-bound :
      (max_conn_count : ℕ) (connections : List C) (w : W)
      → length connections ≤ max_conn_count
      → (length (accept_loop ops (max_conn_count - length connections) connections w).0
          ≤ max_conn_count)
        × (length (turn ops max_conn_count (connections, w)).0 ≤ max_conn_count)
  unfolding turn
  turn-bound max_conn_count connections w h = (full w, closed listening)
    where
      full :
          (v : W)
          → length (accept_loop ops (max_conn_count - length connections) connections v).0
            ≤ max_conn_count
      full v = omega (arith, accept_loop-length (max_conn_count - length connections) connections v)

      listening : W
      listening =
          ops.select (if ltb (length connections) max_conn_count then ops.watch_listener w else w)

      closed :
          (v : W)
          → (let a = accept_loop ops (max_conn_count - length connections) connections v in
              length (process_all ops max_conn_count a.0 a.1).0 ≤ max_conn_count)
      closed v =
          let a = accept_loop ops (max_conn_count - length connections) connections v in
          omega (arith, full v, process_all-length max_conn_count a.0 a.1)
