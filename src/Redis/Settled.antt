-- ===== src/Redis/Settled.antt =====
-- internal/redis/client.go: what becomes of a connection at the end of a command, in Int and put.
use llmgateway_go.Prelude.{
  ◌-◌, ◌≡◌, ◌≤◌, ◌<◌, ◌⊎◌, refl, List, [], ◌∷◌, ◌++◌, ltb, arith, Bool-cases, inl, inr, length,
}
use llmgateway_go.Prelude.Int.{ℤ}
use llmgateway_go.Prelude.Results.{Result, ok, err}
use llmgateway_go.Redis.Resp.{Bytes}
use llmgateway_go.Redis.Client.{
  Conn, Client, Net, Sockets, ConnError, put, round_trip, settle, finish,
}

-- The connection is closed, and the pool as it was.
abbrev pub Dropped : {W : Type 0} → Net W → Conn → Client → Sockets W → Client × Sockets W → Type 0
Dropped net cn c s (c', s') =
    (c' ≡ c) × (s'.world ≡ net.close cn.id s.world) × (s'.opened ≡ s.opened - 1)

-- The same connection is the last one of the pool.
abbrev pub Kept : {W : Type 0} → Conn → Client → Sockets W → Client × Sockets W → Type 0
Kept cn c s (c', s') =
    (rest : Bytes) × (c'.idle ≡ c.idle ++ record { id = cn.id; buffered = rest } ∷ []) × (s' ≡ s)

-- What becomes of a connection by the result of its command and the room in the pool.
abbrev pub Settled :
    {W : Type 0}
    → Net W
    → Conn
    → Client
    → Sockets W
    → Result ConnError ℤ × Client × Sockets W
    → Type 0
Settled net cn c s (err e, c', s') = Dropped net cn c s (c', s')
Settled net cn c s (ok n, c', s') =
    ((length c.idle < c.size) × Kept cn c s (c', s'))
    ⊎ ((c.size ≤ length c.idle) × Dropped net cn c s (c', s'))

settle-Settled :
    {W : Type 0} (net : Net W) (cn : Conn) (c : Client) (r : Result ConnError (ℤ × Bytes))
    (s : Sockets W)
    → Settled net cn c s (settle net cn c (r, s))
unfolding put
settle-Settled net cn c (err e) s = (refl, refl, refl)
settle-Settled net cn c (ok (n, rest)) s = elim (Bool-cases (ltb (length c.idle) c.size)) [
  | inl t ↦ rw t (inl (ground (arith, t), (rest, refl, refl)))
  | inr t ↦ rw t (inr (ground (arith, t), (refl, refl, refl)))
]

pub finish-Settled :
    {W : Type 0} (net : Net W) (cn : Conn) (args : List Bytes) (c : Client) (s : Sockets W)
    → Settled net cn c (round_trip net cn args s).1 (finish net cn args c s)
unfolding finish
finish-Settled net cn args c s =
    settle-Settled net cn c (round_trip net cn args s).0 (round_trip net cn args s).1
