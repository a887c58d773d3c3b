-- ===== src/Redis/Resp.antt =====
-- internal/redis/client.go: what a connection writes and how it reads a reply. A byte is its number, and
-- a connection is read from the bytes that arrive on it before it fails.
use llmgateway_go.Prelude.{
  ℕ, zero, suc, ◌^◌, List, [], ◌∷◌, ◌++◌, Option, none, some, eqb, ltb, if◌then◌else◌, length,
}
use llmgateway_go.Prelude.Int.{ℤ, pos, negsuc}
use llmgateway_go.Prelude.Results.{Result, ok, err, and_then}
use llmgateway_go.Prelude.Texts.{decimal, value_from}

abbrev pub Bytes : Type 0
Bytes = List ℕ

abbrev pub crlf : Bytes
crlf = 13 ∷ 10 ∷ []

abbrev pub bulk : Bytes → Bytes
bulk arg = b'$' ∷ decimal (length arg) ++ (crlf ++ (arg ++ crlf))

abbrev pub bulks : List Bytes → Bytes
bulks [] = []
bulks (arg ∷ rest) = bulk arg ++ bulks rest

-- conn.write: the request that is sent
unfoldable pub request : List Bytes → Bytes
unfolding decimal
request args = b'*' ∷ decimal (length args) ++ (crlf ++ bulks args)

-- Why a reply is no answer.
pub data ReplyError : Type 0 where
  broken truncated empty : ReplyError
  refused unparseable unexpected : Bytes → ReplyError

-- ReadBytes: up to the first such byte and with it, and what is left.
abbrev with_byte : ℕ → Option (Bytes × Bytes) → Option (Bytes × Bytes)
with_byte c none = none
with_byte c (some (line, rest)) = some (c ∷ line, rest)

unfoldable pub read_bytes : ℕ → Bytes → Option (Bytes × Bytes)
read_bytes delimiter [] = none
read_bytes delimiter (c ∷ rest) =
    let more = with_byte c (read_bytes delimiter rest) in
    if eqb c delimiter then some (c ∷ [], rest) else more

-- line[:len(line)-2]
unfoldable pub cut_two : Bytes → Bytes
cut_two [] = []
cut_two (a ∷ []) = []
cut_two (a ∷ b ∷ []) = []
cut_two (a ∷ b ∷ c ∷ rest) = a ∷ cut_two (b ∷ c ∷ rest)

abbrev pub line_of : Option (Bytes × Bytes) → Result ReplyError (Bytes × Bytes)
line_of none = err broken
line_of (some (line, rest)) = if ltb (length line) 2 then err truncated else ok (cut_two line, rest)

-- conn.readLine
unfoldable pub read_line : Bytes → Result ReplyError (Bytes × Bytes)
unfolding read_bytes cut_two
read_line arrived = line_of (read_bytes 10 arrived)

-- conn.readStatus
abbrev pub status_of : Bytes × Bytes → Result ReplyError Bytes
status_of ([], rest) = err empty
status_of (c ∷ text, rest) =
    if eqb c b'+'
    then ok rest
    else if eqb c b'-'
    then err (refused text)
    else err (unexpected (c ∷ text))

unfoldable pub read_status : Bytes → Result ReplyError Bytes
unfolding read_line
read_status arrived = and_then (read_line arrived) status_of

-- strconv.ParseInt in base ten to 64 bits.
abbrev pub digits_value : Bytes → Option ℕ
digits_value [] = none
digits_value (d ∷ rest) = value_from 0 (d ∷ rest)

abbrev pub positive : Option ℕ → Option ℤ
positive none = none
positive (some n) = if ltb n (2 ^ 63) then some (pos n) else none

abbrev opposite : ℕ → ℤ
opposite zero = pos 0
opposite (suc n) = negsuc n

abbrev pub negative : Option ℕ → Option ℤ
negative none = none
negative (some n) = if ltb (2 ^ 63) n then none else some (opposite n)

unfoldable pub parse_int : Bytes → Option ℤ
unfolding value_from
parse_int [] = none
parse_int (c ∷ rest) =
    if eqb c b'-'
    then negative (digits_value rest)
    else if eqb c b'+'
    then positive (digits_value rest)
    else positive (digits_value (c ∷ rest))

abbrev pub or_unparseable : Bytes → Bytes → Option ℤ → Result ReplyError (ℤ × Bytes)
or_unparseable line rest none = err (unparseable line)
or_unparseable line rest (some n) = ok (n, rest)

-- conn.readInt
abbrev pub int_of : Bytes × Bytes → Result ReplyError (ℤ × Bytes)
int_of ([], rest) = err empty
int_of (c ∷ text, rest) =
    if eqb c b':'
    then or_unparseable (c ∷ text) rest (parse_int text)
    else if eqb c b'-'
    then err (refused text)
    else err (unexpected (c ∷ text))

unfoldable pub read_int : Bytes → Result ReplyError (ℤ × Bytes)
unfolding read_line parse_int
read_int arrived = and_then (read_line arrived) int_of
