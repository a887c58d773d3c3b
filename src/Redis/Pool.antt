-- ===== src/Redis/Pool.antt =====
-- The pool of the client under any interleaving of its callers: each takes a connection, makes its round
-- trip, and gives the connection back or drops it.
use llmgateway_go.Prelude.{
  ℕ, suc, ◌+◌, ◌-◌, ◌≡◌, ◌≤◌, refl, sym, ap, String, ◌==◌, ◌∙◌, subst, List, [], ◌∷◌, ◌++◌, Option,
  none, some, ltb, arith, Bool-cases, inl, inr, length, length-append, All, All-append,
}
use llmgateway_go.Prelude.Int.{ℤ}
use llmgateway_go.Prelude.Results.{Result, ok, err}
use llmgateway_go.Redis.Resp.{Bytes, ReplyError, request, read_int}
use llmgateway_go.Redis.Client.{
  Options, Conn, Client, as_reply, Net, Sockets, ConnError, hang_up, dial, take_from, take, put,
  round_trip, read_reply, settle, finish, close_each, close, for_host, new_client,
}
use llmgateway_go.Redis.Replies.{IsOneLine, RepliesOnce, IsClean, read_int-rest}
use llmgateway_go.Redis.Dialed.{Dialed, dial-Dialed}
use llmgateway_go.Redis.Settled.{Settled, finish-Settled}

-- What is in the pool, and the connections that callers hold.
pub record Run (W : Type 0) : Type 0 where
  pub client : Client
  pub busy : List Conn
  pub sockets : Sockets W

abbrev pub held : List Conn → Result ConnError Conn → List Conn
held busy (ok cn) = cn ∷ busy
held busy (err e) = busy

-- The pool is no larger than it may be, no connection has bytes of an earlier reply, and each one that is
-- open is in the pool or in the hands of one caller.
pub record IsSound {W : Type 0} (r : Run W) : Type 0 where
  pub within : length r.client.idle ≤ r.client.size
  pub idle_clean : All IsClean r.client.idle
  pub busy_clean : All IsClean r.busy
  pub counted : r.sockets.opened ≡ length r.client.idle + length r.busy

unfoldable pub after_take : {W : Type 0} → Net W → Run W → Run W
unfolding take
after_take net r =
    let (result, c, s) = take net r.client r.sockets in
    record { client = c; busy = held r.busy result; sockets = s }

unfoldable pub after_finish : {W : Type 0} → Net W → Conn → List Bytes → List Conn → Run W → Run W
unfolding finish
after_finish net cn args others r =
    let (result, c, s) = finish net cn args r.client r.sockets in
    record { client = c; busy = others; sockets = s }

unfoldable pub after_close : {W : Type 0} → Net W → Run W → Run W
unfolding close
after_close net r =
    let (c, s) = close net r.client r.sockets in record r { client = c; sockets = s }

-- A caller takes a connection, or ends its command on the one that it holds, or the client is closed.
pub data Step {W : Type 0} (net : Net W) : Run W → Run W → Type 0 where
  took : (r : Run W) → Step net r (after_take net r)
  ended :
      (r : Run W) (earlier later : List Conn) (cn : Conn) (args : List Bytes)
      → r.busy ≡ earlier ++ cn ∷ later
      → Step net r (after_finish net cn args (earlier ++ later) r)
  closed : (r : Run W) → Step net r (after_close net r)

pub data Reach {W : Type 0} (net : Net W) (r : Run W) : Run W → Type 0 where
  here : Reach net r r
  next : {s t : Run W} → Reach net r s → Step net s t → Reach net r t

-- The two ends of a command: the connection is in the pool again, or closed.
abbrev Ended : {W A : Type 0} → Client → Sockets W → A × Client × Sockets W → Type 0
Ended c s (r, c', s') =
    (length c'.idle ≤ c'.size)
    × (s'.opened + length c.idle + 1 ≡ s.opened + length c'.idle)
    × All IsClean c'.idle

as_reply-ok : {A : Type 0} (r : Result ReplyError A) (a : A) → as_reply r ≡ ok a → r ≡ ok a
as_reply-ok (ok b) a h = cc
as_reply-ok (err e) a h = cc

All-split {ℓ κ} :
    {A : Type ℓ} (P : A → Type κ) (xs : List A) (y : A) (ys : List A)
    → All P (xs ++ y ∷ ys)
    → All P xs × P y × All P ys
All-split P [] y ys h = (tt, h.0, h.1)
All-split P (x ∷ xs) y ys h = let (a, b, c) = All-split P xs y ys h.1 in ((h.0, a), b, c)

module _ {W : Type 0} (net : Net W) (once : RepliesOnce net) where
  settle-Ended :
      (cn : Conn) (c : Client) (o : ℕ) (r : Result ConnError (ℤ × Bytes)) (s : Sockets W)
      → ((n : ℤ) (rest : Bytes) → r ≡ ok (n, rest) → rest ≡ [])
      → length c.idle ≤ c.size
      → All IsClean c.idle
      → s.opened ≡ suc o
      → Ended c s (settle net cn c (r, s))
  unfolding put
  settle-Ended cn c o (err e) s k l a h = (l, omega (arith, h), a)
  settle-Ended cn c o (ok (n, rest)) s k l a h = elim (Bool-cases (ltb (length c.idle) c.size)) [
    | inl t ↦
        let kept : Conn = record cn { buffered = rest } in
        rw t (
          ground (arith, t, length-append c.idle (kept ∷ [])),
          omega (arith, length-append c.idle (kept ∷ [])),
          All-append IsClean c.idle (kept ∷ []) a (k n rest refl, tt),
        )
    | inr t ↦ rw t (l, omega (arith, h), a)
  ]

  read_reply-rest :
      (cn : Conn) (s : Sockets W) (p : Bytes × W) (n : ℤ) (rest : Bytes)
      → IsClean cn
      → IsOneLine p.0
      → (read_reply net cn s p).0 ≡ ok (n, rest)
      → rest ≡ []
  read_reply-rest cn s (bytes, w) n rest c h e = read_int-rest bytes n rest h (
      subst (λ b. read_int (b ++ bytes) ≡ ok (n, rest)) c
        (as_reply-ok (read_int (cn.buffered ++ bytes)) (n, rest) e))

  round_trip-rest :
      (cn : Conn) (args : List Bytes) (s : Sockets W)
      → IsClean cn
      → ((n : ℤ) (rest : Bytes) → (round_trip net cn args s).0 ≡ ok (n, rest) → rest ≡ [])
        × ((round_trip net cn args s).1.opened ≡ s.opened)
  unfolding round_trip
  round_trip-rest cn args s c =
      let (done, w) = net.write cn.id (request args) s.world in
      elim (Bool-cases done) [
        | inl t ↦
            rw t (
              λ n rest e. read_reply-rest cn s (net.arrives cn.id w) n rest c (once cn.id w) e,
              refl,
            )
        | inr t ↦ rw t (λ n rest e. absurd (ground (arith, e)), refl)
      ]

  finish-Ended :
      (cn : Conn) (args : List Bytes) (c : Client) (s : Sockets W) (o : ℕ)
      → IsClean cn
      → length c.idle ≤ c.size
      → All IsClean c.idle
      → s.opened ≡ suc o
      → Ended c s (finish net cn args c s)
  unfolding finish
  finish-Ended cn args c s o k l a h =
      let (rest, kept) = round_trip-rest cn args s k in
      let e : Ended c (round_trip net cn args s).1 (settle net cn c (round_trip net cn args s)) =
        settle-Ended cn c o (round_trip net cn args s).0 (round_trip net cn args s).1 rest l a
          (kept ∙ h) in
      (e.0, omega (arith, e.1, kept), e.2)

  after_finish-IsSound :
      (r : Run W) (earlier later : List Conn) (cn : Conn) (args : List Bytes)
      → r.busy ≡ earlier ++ cn ∷ later
      → IsSound r
      → IsSound (after_finish net cn args (earlier ++ later) r)
  unfolding after_finish
  after_finish-IsSound r earlier later cn args b k =
      let clean : All IsClean (earlier ++ cn ∷ later) = subst (All IsClean) b k.busy_clean in
      let (x, mine, y) = All-split IsClean earlier cn later clean in
      let one : length r.busy ≡ suc (length earlier + length later) =
        ap length b ∙ omega (arith, length-append earlier (cn ∷ later)) in
      let e : Ended r.client r.sockets (finish net cn args r.client r.sockets) =
        finish-Ended cn args r.client r.sockets
          (length r.client.idle + (length earlier + length later)) mine k.within k.idle_clean
          (omega (arith, k.counted, one)) in
      record {
        within = e.0;
        idle_clean = e.2;
        busy_clean = All-append IsClean earlier later x y;
        counted = omega (arith, e.1, k.counted, one, length-append earlier later);
      }

  Dialed-IsSound :
      (r : Run W) (p : Result ConnError Conn × Sockets W)
      → Dialed r.sockets.opened p
      → IsSound r
      → IsSound (record { client = r.client; busy = held r.busy p.0; sockets = p.1 })
  Dialed-IsSound r (ok cn, s) d k = record {
    within = k.within;
    idle_clean = k.idle_clean;
    busy_clean = (d.1, k.busy_clean);
    counted = omega (arith, d.0, k.counted);
  }
  Dialed-IsSound r (err e, s) d k = record {
    within = k.within;
    idle_clean = k.idle_clean;
    busy_clean = k.busy_clean;
    counted = omega (arith, d, k.counted);
  }

  take_from-IsSound :
      (r : Run W) (idle : List Conn)
      → r.client.idle ≡ idle
      → IsSound r
      → (let (result, c, s) = take_from net r.client r.sockets idle in
          IsSound (record { client = c; busy = held r.busy result; sockets = s }))
  take_from-IsSound r [] e k =
      Dialed-IsSound r (dial net r.client.opts r.sockets)
        (dial-Dialed net once r.client.opts r.sockets) k
  take_from-IsSound r (cn ∷ rest) e k =
      let clean : All IsClean (cn ∷ rest) = subst (All IsClean) e k.idle_clean in
      record {
        within = omega (arith, k.within, ap length e);
        idle_clean = clean.1;
        busy_clean = (clean.0, k.busy_clean);
        counted = omega (arith, k.counted, ap length e);
      }

  close_each-opened :
      (cns : List Conn) (s : Sockets W) → (close_each net cns s).opened ≡ s.opened - length cns
  close_each-opened [] s = omega arith
  close_each-opened (cn ∷ rest) s = omega (arith, close_each-opened rest (hang_up net cn s))

  Step-IsSound : {r t : Run W} → Step net r t → IsSound r → IsSound t
  unfolding after_take after_close take close
  Step-IsSound (took r) k = take_from-IsSound r r.client.idle refl k
  Step-IsSound (ended r earlier later cn args b) k =
      after_finish-IsSound r earlier later cn args b k
  Step-IsSound (closed r) k = record {
    within = omega arith;
    idle_clean = tt;
    busy_clean = k.busy_clean;
    counted = omega (arith, close_each-opened r.client.idle r.sockets, k.counted);
  }

  Reach-IsSound_from : {r t : Run W} → IsSound r → Reach net r t → IsSound t
  Reach-IsSound_from k here = k
  Reach-IsSound_from k (next before step) = Step-IsSound step (Reach-IsSound_from k before)

abbrev pub starting : {W : Type 0} → Client → W → Run W
starting c w = record { client = c; busy = []; sockets = record { world = w; opened = 0 } }

for_host-idle :
    (addr : String) (size : ℤ) (opts : Options) (o : Option String) (c : Client)
    → for_host addr size opts o ≡ ok c
    → c.idle ≡ []
for_host-idle addr size opts none c h = cc
for_host-idle addr size opts (some host) c h = cc

new_client-idle :
    (split : String → Option String) (addr : String) (size : ℤ) (opts : Options) (c : Client)
    → new_client split addr size opts ≡ ok c
    → c.idle ≡ []
unfolding new_client
new_client-idle split addr size opts c h = elim (Bool-cases (addr == "")) [
  | inl e ↦ absurd (ground (arith, e, h))
  | inr e ↦ for_host-idle addr size opts (split addr) c (ground (arith, e, h))
]

-- Whatever its callers do and the network does, provided that a server sends one line for a request: the pool
-- of a client never exceeds its size, no connection in it or in use has bytes of an earlier reply to be read,
-- and each connection that is open is in the pool or in the hands of one caller. From there, the connection
-- of a command that errs is closed and the pool left as it is, so that no late reply can meet another command;
-- the connection of one that is answered is the last of the pool if there is room, and closed only if not.
pub Reach-IsSound :
    {W : Type 0} (net : Net W) (split : String → Option String) (addr : String) (size : ℤ)
    (opts : Options) (c : Client) (w : W) (t : Run W) (cn : Conn) (args : List Bytes)
    → RepliesOnce net
    → new_client split addr size opts ≡ ok c
    → Reach net (starting c w) t
    → IsSound t
      × Settled net cn t.client
          (round_trip net cn args t.sockets).1
          (finish net cn args t.client t.sockets)
Reach-IsSound net split addr size opts c w t cn args once made reach =
    let none_idle : c.idle ≡ [] = new_client-idle split addr size opts c made in
    (
      Reach-IsSound_from net once
          (record {
            within = omega (arith, ap length none_idle);
            idle_clean = subst (All IsClean) (sym none_idle) tt;
            busy_clean = tt;
            counted = omega (arith, ap length none_idle);
          })
          reach,
      finish-Settled net cn args t.client t.sockets,
    )
