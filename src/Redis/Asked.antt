-- ===== src/Redis/Asked.antt =====
-- One command of the limiters over the client: what `Redis.Store` takes the client for.
use llmgateway_go.Prelude.{
  ℕ, ◌^◌, ◌≡◌, ◌<◌, refl, ap, subst, sym, List, [], ◌∷◌, ◌++◌, none, some, Bool, true, false, ltb,
  Bool-cases, inl, inr, length, if◌then◌else◌, Option,
}
use llmgateway_go.Prelude.Int.{ℤ, pos}
use llmgateway_go.Prelude.Results.{Result, ok, err}
use llmgateway_go.Prelude.Texts.{decimal}
use llmgateway_go.Gateway.Ports.{Answer, says, down}
use llmgateway_go.Redis.Store.{Reach, lost_before, lost_after, answered, ask}
use llmgateway_go.Redis.Resp.{Bytes, broken, crlf, request, read_bytes, read_line, read_int}
use llmgateway_go.Redis.Framing.{IsLine, read_int-reply, read_command, read_command-request}
use llmgateway_go.Redis.Client.{
  Conn, Client, Net, Sockets, ConnError, of_reply, as_reply, put, round_trip, read_reply,
  not_written, settle, finish,
}
use llmgateway_go.Redis.Replies.{IsClean}

abbrev pub integer_reply : ℕ → Bytes
integer_reply n = b':' ∷ decimal n ++ crlf

-- A server that runs a script, and the reply that is on its way.
abbrev pub Served : Type 0 → Type 0
Served W = W × Bytes

-- What becomes of the command on the network: it is not written, its reply breaks off, or it arrives.
abbrev delivered : {W : Type 0} → Bytes → (W → ℕ × W) → Reach → W → Bool × Served W
delivered part script lost_before w = (false, (w, []))
delivered part script lost_after w = (true, ((script w).1, part))
delivered part script answered w = let (n, w') = script w in (true, (w', integer_reply n))

-- The server runs the script of the arguments that it reads from the bytes of the request; from bytes that
-- are no command it runs nothing and sends nothing.
abbrev received :
    {W : Type 0}
    → Bytes
    → (List Bytes → W → ℕ × W)
    → Reach
    → Option (List Bytes × Bytes)
    → W
    → Bool × Served W
received part scripts fate none w = (true, (w, []))
received part scripts fate (some (args, rest)) w = delivered part (scripts args) fate w

abbrev pub served : {W : Type 0} → Bytes → (List Bytes → W → ℕ × W) → Reach → Net (Served W)
unfolding read_command
served part scripts fate = record {
  connect = λ s. (some 0, s);
  set_deadline = λ id s. (true, s);
  handshake = λ roots id s. (true, s);
  write = λ id bytes s. received part scripts fate (read_command bytes) s.0;
  arrives = λ id s. (s.1, (s.0, []));
  clear_deadline = λ id s. (true, s);
  close = λ id s. s;
}

-- The client's answer is that of the command.
abbrev pub Agrees : Result ConnError ℤ → Answer ℕ → Type 0
Agrees (ok z) (says n) = z ≡ pos n
Agrees (err e) down = Unit
Agrees _ _ = ⊥

read_bytes-part : (part : Bytes) → IsLine part → read_bytes 10 part ≡ none
unfolding read_bytes
read_bytes-part [] h = refl
read_bytes-part (c ∷ rest) h = rw (h.0, read_bytes-part rest h.1) refl

as_reply-part : (part : Bytes) → IsLine part → (e : ConnError) × (as_reply (read_int part) ≡ err e)
unfolding read_int read_line
as_reply-part part h = (of_reply broken, rw (read_bytes-part part h) refl)

as_reply-integer : (n : ℕ) → n < 2 ^ 63 → as_reply (read_int (integer_reply n)) ≡ ok (pos n, [])
as_reply-integer n h =
    let e : read_int (b':' ∷ decimal n ++ (crlf ++ [])) ≡ ok (pos n, []) =
      (read_int-reply n [] [] h tt).0 in
    rw e refl

-- The answer of a command by the reply to it.
settle-Agrees :
    {W : Type 0} (net : Net (Served W)) (cn : Conn) (c : Client) (s : Sockets (Served W)) (n : ℕ)
    → Agrees (settle net cn c (ok (pos n, []), s)).0 (says n)
settle-Agrees net cn c s n = refl

settle-world :
    {W : Type 0} (net : Net (Served W)) (close : (id : ℕ) (s : Served W) → net.close id s ≡ s)
    (cn : Conn) (c : Client) (r : Result ConnError (ℤ × Bytes)) (s : Sockets (Served W))
    → (settle net cn c (r, s)).2.world ≡ s.world
unfolding put
settle-world net close cn c (ok (n, rest)) s = elim (Bool-cases (ltb (length c.idle) c.size)) [
  | inl t ↦ rw t refl
  | inr t ↦ rw t (close cn.id s.world)
]
settle-world net close cn c (err e) s = close cn.id s.world

-- A request as it is sent, with nothing behind it.
append_nil : (bytes : Bytes) → bytes ++ [] ≡ bytes
append_nil [] = refl
append_nil (c ∷ rest) = ap (λ b. c ∷ b) (append_nil rest)

read_command-whole : (args : List Bytes) → read_command (request args) ≡ some (args, [])
read_command-whole args =
    subst (λ b. read_command b ≡ some (args, [])) (append_nil (request args))
      (read_command-request args [])

-- The round trip after what the network does with the request.
abbrev tripped :
    {W : Type 0}
    → Net (Served W)
    → Conn
    → ℕ
    → Bool × Served W
    → Result ConnError (ℤ × Bytes) × Sockets (Served W)
tripped net cn opened p =
    let (done, w) = p in
    if done
    then read_reply net cn (record { world = w; opened = opened }) (net.arrives cn.id w)
    else (err not_written, record { world = w; opened = opened })

-- The client's answer, and the server afterwards, are those of the command.
abbrev pub Asks :
    {W : Type 0}
    → Reach
    → (W → ℕ × W)
    → W
    → Result ConnError ℤ × Client × Sockets (Served W)
    → Type 0
Asks fate script w (r, c, s) = Agrees r (ask fate script w).0 × (s.world.0 ≡ (ask fate script w).1)

settle-Asks :
    {W : Type 0} (part : Bytes) (scripts : List Bytes → W → ℕ × W) (fate : Reach) (cn : Conn)
    (args : List Bytes) (c : Client) (w : W) (opened : ℕ)
    → IsLine part
    → IsClean cn
    → (scripts args w).0 < 2 ^ 63
    → (let net : Net (Served W) = served part scripts fate in
        Asks fate
          (scripts args)
          w
          (settle net cn c (tripped net cn opened (delivered part (scripts args) fate w))))
unfolding served read_command
settle-Asks {W} part scripts lost_before cn args c w opened p k h = (tt, refl)
settle-Asks {W} part scripts lost_after cn args c w opened p k h =
    let net : Net (Served W) = served part scripts lost_after in
    let s : Sockets (Served W) = record { world = ((scripts args w).1, []); opened = opened } in
    let (e, q) = as_reply-part part p in
    let broken_off : as_reply (read_int (cn.buffered ++ part)) ≡ err e =
      subst (λ b. as_reply (read_int (b ++ part)) ≡ err e) (sym k) q in
    subst (λ r. Asks lost_after (scripts args) w (settle net cn c (r, s))) (sym broken_off)
      (tt, refl)
settle-Asks {W} part scripts answered cn args c w opened p k h =
    let net : Net (Served W) = served part scripts answered in
    let s : Sockets (Served W) = record { world = ((scripts args w).1, []); opened = opened } in
    let n : ℕ = (scripts args w).0 in
    let whole : as_reply (read_int (cn.buffered ++ integer_reply n)) ≡ ok (pos n, []) =
      subst (λ b. as_reply (read_int (b ++ integer_reply n)) ≡ ok (pos n, [])) (sym k)
        (as_reply-integer n h) in
    subst (λ r. Asks answered (scripts args) w (settle net cn c (r, s))) (sym whole)
      (
        settle-Agrees net cn c s n,
        ap (λ x. x.0) (settle-world net (λ id x. refl) cn c (ok (pos n, [])) s),
      )

-- The server runs, for each request, the script of the arguments that it reads from the bytes that arrive. A
-- command on a connection that is clean, as the pool keeps them, does to that server and answers what the
-- limiters' model of one command says of the script of these very arguments, whichever of the three becomes
-- of it, for counters below two to the sixty-third.
pub finish-ask :
    {W : Type 0} (part : Bytes) (scripts : List Bytes → W → ℕ × W) (fate : Reach) (cn : Conn)
    (args : List Bytes) (c : Client) (w : W) (opened : ℕ)
    → IsLine part
    → IsClean cn
    → (scripts args w).0 < 2 ^ 63
    → Asks fate
        (scripts args)
        w
        (finish (served part scripts fate) cn args c (record { world = (w, []); opened = opened }))
unfolding finish round_trip served read_command
finish-ask {W} part scripts fate cn args c w opened p k h =
    let net : Net (Served W) = served part scripts fate in
    subst
      (λ o.
        Asks fate (scripts args) w
          (settle net cn c (tripped net cn opened (received part scripts fate o w))))
      (sym (read_command-whole args)) (settle-Asks part scripts fate cn args c w opened p k h)
