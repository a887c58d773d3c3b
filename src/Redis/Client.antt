-- ===== src/Redis/Client.antt =====
-- internal/redis/client.go: the client over its pool of connections. The sockets, TLS and the host's
-- network are a parameter; how many connections are open is counted beside it.
use llmgateway_go.Prelude.{
  ℕ, ◌+◌, ◌-◌, String, ◌==◌, List, [], ◌∷◌, ◌++◌, Option, none, some, Bool, ltb, if◌then◌else◌,
  length,
}
use llmgateway_go.Prelude.Int.{ℤ, pos, negsuc}
use llmgateway_go.Prelude.Results.{Result, ok, err}
use llmgateway_go.Redis.Resp.{Bytes, ReplyError, request, read_int, read_status}

-- The root certificates are the text of the bundle they were read from; nothing means the system's.
pub record Options : Type 0 where
  pub tls : Bool
  pub root_cas : Option String
  pub password : Bytes

-- A connection, and what its reader holds of bytes that nobody read.
pub record Conn : Type 0 where
  pub id : ℕ
  pub buffered : Bytes

-- The pool is a channel: first in, first out, of a fixed size.
pub record Client : Type 0 where
  pub addr : String
  pub opts : Options
  pub server_name : String
  pub size : ℕ
  pub idle : List Conn

pub data ClientError : Type 0 where
  no_address no_host : ClientError

abbrev size_or_default : ℤ → ℕ
size_or_default (pos n) = if ltb 0 n then n else 4
size_or_default (negsuc n) = 4

abbrev pub for_host : String → ℤ → Options → Option String → Result ClientError Client
for_host addr size opts none = err no_host
for_host addr size opts (some host) = ok (record {
  addr = addr;
  opts = opts;
  server_name = host;
  size = size_or_default size;
  idle = [];
})

-- NewClient, with net.SplitHostPort for the host
unfoldable pub new_client :
    (String → Option String) → String → ℤ → Options → Result ClientError Client
new_client split addr size opts =
    if addr == "" then err no_address else for_host addr size opts (split addr)

-- One host's network over the states `W` of the world. What arrives is what there is to read until a
-- line is complete, the deadline passes or the connection fails.
pub record Net (W : Type 0) : Type 0 where
  pub connect : W → Option ℕ × W
  pub set_deadline : ℕ → W → Bool × W
  pub handshake : Option String → ℕ → W → Bool × W
  pub write : ℕ → Bytes → W → Bool × W
  pub arrives : ℕ → W → Bytes × W
  pub clear_deadline : ℕ → W → Bool × W
  pub close : ℕ → W → W

-- The world, and how many connections are open in it.
pub record Sockets (W : Type 0) : Type 0 where
  pub world : W
  pub opened : ℕ

pub data ConnError : Type 0 where
  not_dialed no_deadline no_handshake not_cleared : ConnError
  not_written : ConnError
  of_reply : ReplyError → ConnError

abbrev pub as_reply : {A : Type 0} → Result ReplyError A → Result ConnError A
as_reply (ok a) = ok a
as_reply (err e) = err (of_reply e)

module _ {W : Type 0} (net : Net W) where
  abbrev pub hang_up : Conn → Sockets W → Sockets W
  hang_up cn s = record { world = net.close cn.id s.world; opened = s.opened - 1 }

  -- if err != nil { _ = raw.Close(); return nil, err }
  abbrev pub or_hang_up :
      Conn
      → ConnError
      → (Sockets W → Result ConnError Conn × Sockets W)
      → Sockets W
      → Bool × W
      → Result ConnError Conn × Sockets W
  or_hang_up cn e next s (done, w) =
      let s' : Sockets W = record s { world = w } in
      if done then next s' else (err e, hang_up cn s')

  abbrev pub finish_dial : Conn → Sockets W → Result ConnError Conn × Sockets W
  finish_dial cn s =
      or_hang_up cn not_cleared (λ s'. (ok cn, s')) s (net.clear_deadline cn.id s.world)

  -- conn.auth, on what has arrived
  abbrev pub authenticated :
      Conn → Sockets W → Result ReplyError Bytes → Result ConnError Conn × Sockets W
  authenticated cn s (err e) = (err (of_reply e), hang_up cn s)
  authenticated cn s (ok rest) = finish_dial (record cn { buffered = rest }) s

  abbrev pub read_auth : Conn → Sockets W → Result ConnError Conn × Sockets W
  read_auth cn s =
      let (bytes, w) = net.arrives cn.id s.world in
      authenticated cn (record s { world = w }) (read_status (cn.buffered ++ bytes))

  abbrev pub auth_word : Bytes
  auth_word = b'A' ∷ b'U' ∷ b'T' ∷ b'H' ∷ []

  abbrev pub auth_or_skip : Bytes → Conn → Sockets W → Result ConnError Conn × Sockets W
  auth_or_skip [] cn s = finish_dial cn s
  auth_or_skip (c ∷ rest) cn s =
      or_hang_up cn not_written (read_auth cn) s
        (net.write cn.id (request (auth_word ∷ (c ∷ rest) ∷ [])) s.world)

  abbrev pub shake_or_skip : Options → Conn → Sockets W → Result ConnError Conn × Sockets W
  shake_or_skip opts cn s =
      if opts.tls
      then or_hang_up cn no_handshake (auth_or_skip opts.password cn) s
          (net.handshake opts.root_cas cn.id s.world)
      else auth_or_skip opts.password cn s

  abbrev pub connected : Options → Sockets W → Option ℕ × W → Result ConnError Conn × Sockets W
  connected opts s (none, w) = (err not_dialed, record s { world = w })
  connected opts s (some id, w) =
      let cn : Conn = record { id = id; buffered = [] } in
      or_hang_up cn no_deadline (shake_or_skip opts cn) (record s { opened = s.opened + 1 })
        (net.set_deadline id w)

  -- Client.dial
  unfoldable pub dial : Options → Sockets W → Result ConnError Conn × Sockets W
  unfolding read_status request
  dial opts s = connected opts s (net.connect s.world)

  abbrev pub take_from : Client → Sockets W → List Conn → Result ConnError Conn × Client × Sockets W
  take_from c s [] = let (r, s') = dial c.opts s in (r, c, s')
  take_from c s (cn ∷ rest) = (ok cn, record c { idle = rest }, s)

  -- Client.take
  unfoldable pub take : Client → Sockets W → Result ConnError Conn × Client × Sockets W
  unfolding dial
  take c s = take_from c s c.idle

  -- Client.put
  unfoldable pub put : Conn → Client → Sockets W → Client × Sockets W
  put cn c s =
      if ltb (length c.idle) c.size
      then (record c { idle = c.idle ++ cn ∷ [] }, s)
      else (c, hang_up cn s)

  abbrev pub read_reply : Conn → Sockets W → Bytes × W → Result ConnError (ℤ × Bytes) × Sockets W
  read_reply cn s (bytes, w) = (as_reply (read_int (cn.buffered ++ bytes)), record s { world = w })

  -- conn.roundTrip
  unfoldable pub round_trip :
      Conn → List Bytes → Sockets W → Result ConnError (ℤ × Bytes) × Sockets W
  unfolding request read_int
  round_trip cn args s =
      let (done, w) = net.write cn.id (request args) s.world in
      if done
      then read_reply cn s (net.arrives cn.id w)
      else (err not_written, record s { world = w })

  abbrev pub settle :
      Conn
      → Client
      → Result ConnError (ℤ × Bytes) × Sockets W
      → Result ConnError ℤ × Client × Sockets W
  settle cn c (err e, s) = (err e, c, hang_up cn s)
  settle cn c (ok (n, rest), s) =
      let (c', s') = put (record cn { buffered = rest }) c s in (ok n, c', s')

  -- The second half of Client.Int: the round trip on a connection that was taken, and its end.
  unfoldable pub finish :
      Conn → List Bytes → Client → Sockets W → Result ConnError ℤ × Client × Sockets W
  unfolding round_trip put
  finish cn args c s = settle cn c (round_trip cn args s)

  abbrev pub finish_taken :
      List Bytes
      → Result ConnError Conn × Client × Sockets W
      → Result ConnError ℤ × Client × Sockets W
  finish_taken args (err e, c, s) = (err e, c, s)
  finish_taken args (ok cn, c, s) = finish cn args c s

  -- Client.Int
  unfoldable pub client_int :
      List Bytes → Client → Sockets W → Result ConnError ℤ × Client × Sockets W
  unfolding take finish
  client_int args c s = finish_taken args (take c s)

  abbrev pub close_each : List Conn → Sockets W → Sockets W
  close_each [] s = s
  close_each (cn ∷ rest) s = close_each rest (hang_up cn s)

  -- Client.Close
  unfoldable pub close : Client → Sockets W → Client × Sockets W
  close c s = (record c { idle = [] }, close_each c.idle s)
