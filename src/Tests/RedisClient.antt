-- ===== src/Tests/RedisClient.antt =====
-- A client over a network that answers each command with one integer reply.
use llmgateway_go.Prelude.{ℕ, ◌+◌, ◌≡◌, refl, List, [], ◌∷◌, ◌++◌, some, true, arith, length}
use llmgateway_go.Prelude.Int.{pos}
use llmgateway_go.Prelude.Results.{ok}
use llmgateway_go.Redis.Store.{answered}
use llmgateway_go.Redis.Resp.{Bytes, crlf, request, read_bytes}
use llmgateway_go.Redis.Framing.{read_command, read_command-request}
use llmgateway_go.Redis.Client.{
  Options, Conn, Client, round_trip, Net, client_int, new_client, finish,
}
use llmgateway_go.Redis.Pool
use llmgateway_go.Redis.Replies.{RepliesOnce}
use llmgateway_go.Redis.Settled.{Settled}
use llmgateway_go.Redis.Pool.{
  Run, IsSound, Step, took, ended, closed, starting, Reach-IsSound, after_take, after_finish,
  after_close,
}
use llmgateway_go.Redis.Asked.{Asks, served, finish-ask}

-- EVAL with an argument that holds the end of a command.
abbrev words : List Bytes
words = (b'E' ∷ b'V' ∷ []) ∷ (13 ∷ 10 ∷ b'*' ∷ []) ∷ []

read_command-request_example : read_command (request words ++ crlf) ≡ some (words, crlf)
read_command-request_example = read_command-request words crlf

-- The world counts the connections that were made.
abbrev net : Net ℕ
net = record {
  connect = λ w. (some w, w + 1);
  set_deadline = λ id w. (true, w);
  handshake = λ roots id w. (true, w);
  write = λ id bytes w. (true, w);
  arrives = λ id w. (b':' ∷ b'7' ∷ crlf, w);
  clear_deadline = λ id w. (true, w);
  close = λ id w. w;
}

abbrev opts : Options
opts = record { tls = true; root_cas = some "PEM"; password = [] }

abbrev client : Client
client = record { addr = "h:1"; opts = opts; server_name = "h"; size = 4; idle = [] }

abbrev once : RepliesOnce net
unfolding read_bytes
once id w = refl

abbrev begun : Run ℕ
begun = after_take net (starting client 0)

abbrev done : Run ℕ
done = after_finish net (record { id = 0; buffered = [] }) words [] begun

two_steps : Pool.Reach net (starting client 0) done
unfolding after_take
two_steps =
    Pool.next (Pool.next Pool.here (took (starting client 0)))
      (ended begun [] [] (record { id = 0; buffered = [] }) words refl)

abbrev held_one : Conn
held_one = record { id = 9; buffered = [] }

Reach-IsSound_example :
    IsSound done
    × Settled net held_one done.client
        (round_trip net held_one words done.sockets).1
        (finish net held_one words done.client done.sockets)
unfolding new_client
Reach-IsSound_example =
    Reach-IsSound net (λ a. some "h") "h:1" (pos 0) opts client 0 done held_one words once refl
      two_steps

answers_seven : (client_int net words client (record { world = 0; opened = 0 })).0 ≡ ok (pos 7)
unfolding client_int read_bytes
answers_seven = refl

-- The script adds the number of the arguments.
abbrev scripts : List Bytes → ℕ → ℕ × ℕ
scripts args w = (w + length args, w + length args)

finish-ask_example : Asks answered (scripts words) 6 (
    finish
      (served [] scripts answered)
      (record { id = 0; buffered = [] })
      words
      client
      (record { world = (6, []); opened = 1 }))
finish-ask_example =
    finish-ask [] scripts answered (record { id = 0; buffered = [] }) words client 6 1 tt refl
      (omega arith)
