-- ===== src/Redis/Replies.antt =====
-- internal/redis/client.go: what its readers leave of the bytes that arrive.
use llmgateway_go.Prelude.{
  ℕ, ◌≡◌, ◌∙◌, [], ◌∷◌, Option, none, some, ltb, arith, Bool-cases, inl, inr, length, eqb,
}
use llmgateway_go.Prelude.Int.{ℤ}
use llmgateway_go.Prelude.Results.{ok, and_then-ok}
use llmgateway_go.Redis.Resp.{
  Bytes, read_bytes, read_line, read_int, read_status, line_of, int_of, status_of, parse_int,
  or_unparseable,
}
use llmgateway_go.Redis.Client.{Conn, Net}

-- What is read as one line is all that arrived.
abbrev LeavesNothing : Option (Bytes × Bytes) → Type 0
LeavesNothing none = Unit
LeavesNothing (some (line, rest)) = rest ≡ []

abbrev pub IsOneLine : Bytes → Type 0
unfolding read_bytes
IsOneLine bytes = LeavesNothing (read_bytes 10 bytes)

-- Redis answers one request with one reply, and the replies to these commands are lines.
abbrev pub RepliesOnce : {W : Type 0} → Net W → Type 0
RepliesOnce net = (id : ℕ) (w : _) → IsOneLine (net.arrives id w).0

line_of-rest :
    (o : Option (Bytes × Bytes)) (line rest : Bytes)
    → LeavesNothing o
    → line_of o ≡ ok (line, rest)
    → rest ≡ []
line_of-rest none line rest h e = cc
line_of-rest (some (l, r)) line rest h e = elim (Bool-cases (ltb (length l) 2)) [
  | inl t ↦ absurd (ground (arith, t, e))
  | inr t ↦ ground (arith, t, e, h)
]

read_line-rest :
    (bytes line rest : Bytes) → IsOneLine bytes → read_line bytes ≡ ok (line, rest) → rest ≡ []
unfolding read_line
read_line-rest bytes line rest h e = line_of-rest (read_bytes 10 bytes) line rest h e

int_of-rest :
    (line rest : Bytes) (n : ℤ) (left : Bytes) → int_of (line, rest) ≡ ok (n, left) → left ≡ rest
int_of-rest [] rest n left h = cc
int_of-rest (c ∷ text) rest n left h = elim (Bool-cases (eqb c b':')) [
  | inl t ↦ by_value (parse_int text) (ground (arith, t, h))
  | inr t ↦ absurd (ground (arith, t, h))
]
  where
    by_value : (o : Option ℤ) → or_unparseable (c ∷ text) rest o ≡ ok (n, left) → left ≡ rest
    by_value none e = cc
    by_value (some z) e = cc

status_of-rest : (line rest left : Bytes) → status_of (line, rest) ≡ ok left → left ≡ rest
status_of-rest [] rest left h = cc
status_of-rest (c ∷ text) rest left h = ground arith

pub read_int-rest :
    (bytes : Bytes) (n : ℤ) (left : Bytes)
    → IsOneLine bytes
    → read_int bytes ≡ ok (n, left)
    → left ≡ []
unfolding read_int
read_int-rest bytes n left h e =
    let ((line, rest), a, b) = and_then-ok (read_line bytes) int_of e in
    int_of-rest line rest n left b ∙ read_line-rest bytes line rest h a

pub read_status-rest :
    (bytes left : Bytes) → IsOneLine bytes → read_status bytes ≡ ok left → left ≡ []
unfolding read_status
read_status-rest bytes left h e =
    let ((line, rest), a, b) = and_then-ok (read_line bytes) status_of e in
    status_of-rest line rest left b ∙ read_line-rest bytes line rest h a

-- Nothing is left of an earlier reply.
abbrev pub IsClean : Conn → Type 0
IsClean cn = cn.buffered ≡ []
