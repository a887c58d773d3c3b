-- ===== src/Redis/Framing.antt =====
-- The requests of the client as a server that follows the RESP protocol reads them, and the replies
-- that the client takes for integers.
use mathlib.Core.List.{append_assoc}
use llmgateway_go.Prelude.{
  ℕ, zero, suc, ◌+◌, ◌-◌, ◌*◌, ◌^◌, ◌≡◌, ◌<◌, refl, sym, ◌∙◌, List, [], ◌∷◌, ◌++◌, Option, none,
  some, true, false, eqb, ltb, lt→ltb, arith, if◌then◌else◌, length, length-append, All, subst,
}
use llmgateway_go.Prelude.Int.{pos}
use llmgateway_go.Prelude.Results.{ok, err}
use llmgateway_go.Prelude.Texts.{
  decimal, length-decimal, value_from, is_digit, value_from-decimal, decimal_digits,
}
use llmgateway_go.Redis.Resp.{
  Bytes, crlf, bulk, bulks, request, read_bytes, cut_two, read_line, read_int, parse_int, refused,
}

-- One byte that has to be there.
abbrev expect : ℕ → Bytes → Option Bytes
expect byte [] = none
expect byte (c ∷ rest) = if eqb c byte then some rest else none

abbrev expect_after : ℕ → Option Bytes → Option Bytes
expect_after byte none = none
expect_after byte (some rest) = expect byte rest

-- Two bytes that end a line.
abbrev pub expect_crlf : Bytes → Option Bytes
expect_crlf bytes = expect_after 10 (expect 13 bytes)

abbrev counted : ℕ → Option Bytes → Option (ℕ × Bytes)
counted n none = none
counted n (some rest) = some (n, rest)

-- A number and the end of its line.
pub read_count : ℕ → Bytes → Option (ℕ × Bytes)
read_count v [] = none
read_count v (c ∷ rest) =
    let more = read_count (v * 10 + (c - 48)) rest in
    if is_digit c then more else counted v (expect_crlf (c ∷ rest))

-- So many bytes, whatever they are, and the rest.
abbrev before : ℕ → Option (Bytes × Bytes) → Option (Bytes × Bytes)
before c none = none
before c (some (front, rest)) = some (c ∷ front, rest)

pub take_bytes : ℕ → Bytes → Option (Bytes × Bytes)
take_bytes zero bytes = some ([], bytes)
take_bytes (suc n) [] = none
take_bytes (suc n) (c ∷ rest) = before c (take_bytes n rest)

abbrev ended : Bytes → Option Bytes → Option (Bytes × Bytes)
ended arg none = none
ended arg (some rest) = some (arg, rest)

abbrev taken : Option (Bytes × Bytes) → Option (Bytes × Bytes)
taken none = none
taken (some (arg, rest)) = ended arg (expect_crlf rest)

abbrev of_count : Option (ℕ × Bytes) → Option (Bytes × Bytes)
of_count none = none
of_count (some (n, rest)) = taken (take_bytes n rest)

abbrev read_prefixed : ℕ → Bytes → Option (ℕ × Bytes)
read_prefixed byte [] = none
read_prefixed byte (c ∷ rest) = if eqb c byte then read_count 0 rest else none

-- A bulk string.
pub read_bulk : Bytes → Option (Bytes × Bytes)
unfolding read_count take_bytes
read_bulk bytes = of_count (read_prefixed b'$' bytes)

abbrev and_more : Bytes → Option (List Bytes × Bytes) → Option (List Bytes × Bytes)
and_more arg none = none
and_more arg (some (args, rest)) = some (arg ∷ args, rest)

abbrev then_rest :
    (Bytes → Option (List Bytes × Bytes)) → Option (Bytes × Bytes) → Option (List Bytes × Bytes)
then_rest read none = none
then_rest read (some (arg, rest)) = and_more arg (read rest)

-- So many bulk strings.
pub read_bulks : ℕ → Bytes → Option (List Bytes × Bytes)
unfolding read_bulk
read_bulks zero bytes = some ([], bytes)
read_bulks (suc n) bytes = then_rest (read_bulks n) (read_bulk bytes)

abbrev of_array : Option (ℕ × Bytes) → Option (List Bytes × Bytes)
of_array none = none
of_array (some (n, rest)) = read_bulks n rest

-- A command: an array of bulk strings.
unfoldable pub read_command : Bytes → Option (List Bytes × Bytes)
unfolding read_bulks read_count
read_command bytes = of_array (read_prefixed b'*' bytes)

read_count-digits :
    (v n : ℕ) (ds rest : Bytes)
    → All (λ d. is_digit d ≡ true) ds
    → value_from v ds ≡ some n
    → read_count v (ds ++ (crlf ++ rest)) ≡ some (n, rest)
unfolding read_count value_from
read_count-digits v n [] rest a h = cc
read_count-digits v n (d ∷ ds) rest a h =
    rw (a.0) (read_count-digits (v * 10 + (d - 48)) n ds rest a.1 (ground (arith, a.0, h)))

read_count-decimal :
    (n : ℕ) (rest : Bytes) → read_count 0 (decimal n ++ (crlf ++ rest)) ≡ some (n, rest)
read_count-decimal n rest =
    read_count-digits 0 n (decimal n) rest (decimal_digits n) (value_from-decimal n)

take_bytes-append :
    (front rest : Bytes) → take_bytes (length front) (front ++ rest) ≡ some (front, rest)
unfolding take_bytes
take_bytes-append [] rest = refl
take_bytes-append (c ∷ front) rest = rw (take_bytes-append front rest) refl

read_bulk-bulk : (arg rest : Bytes) → read_bulk (bulk arg ++ rest) ≡ some (arg, rest)
unfolding read_bulk
read_bulk-bulk arg rest =
    rw
      (
        append_assoc (decimal (length arg)) (crlf ++ (arg ++ crlf)) rest,
        read_count-decimal (length arg) ((arg ++ crlf) ++ rest),
        append_assoc arg crlf rest,
        take_bytes-append arg (crlf ++ rest),
      )
      refl

read_bulks-bulks :
    (args : List Bytes) (rest : Bytes)
    → read_bulks (length args) (bulks args ++ rest) ≡ some (args, rest)
unfolding read_bulks
read_bulks-bulks [] rest = refl
read_bulks-bulks (arg ∷ args) rest =
    subst (λ b. then_rest (read_bulks (length args)) (read_bulk b) ≡ some (arg ∷ args, rest))
      (sym (append_assoc (bulk arg) (bulks args) rest))
      (rw (read_bulk-bulk arg (bulks args ++ rest), read_bulks-bulks args rest) refl)

-- A server reads from each request exactly the arguments that the client was given, whatever bytes are in
-- them, and finds what follows untouched: no argument can end a command or begin another.
pub read_command-request :
    (args : List Bytes) (rest : Bytes) → read_command (request args ++ rest) ≡ some (args, rest)
unfolding read_command request
read_command-request args rest =
    rw
      (
        append_assoc (decimal (length args)) (crlf ++ bulks args) rest,
        read_count-decimal (length args) (bulks args ++ rest),
      )
      (read_bulks-bulks args rest)

-- ------------------------------------------------------------------ replies

-- A line has no line feed in it.
abbrev pub IsLine : Bytes → Type 0
IsLine line = All (λ c. eqb c 10 ≡ false) line

read_bytes-line :
    (line rest : Bytes)
    → IsLine line
    → read_bytes 10 (line ++ (crlf ++ rest)) ≡ some (line ++ crlf, rest)
unfolding read_bytes
read_bytes-line [] rest h = refl
read_bytes-line (c ∷ line) rest h = rw (h.0, read_bytes-line line rest h.1) refl

cut_two-cons :
    (a b : ℕ) (rest : Bytes) → 0 < length rest → cut_two (a ∷ b ∷ rest) ≡ a ∷ cut_two (b ∷ rest)
unfolding cut_two
cut_two-cons a b [] h = absurd (omega arith)
cut_two-cons a b (c ∷ rest) h = refl

cut_two-crlf : (line : Bytes) → cut_two (line ++ crlf) ≡ line
unfolding cut_two
cut_two-crlf [] = refl
cut_two-crlf (a ∷ []) = refl
cut_two-crlf (a ∷ b ∷ line) =
    cut_two-cons a b (line ++ crlf) (omega (arith, length-append line crlf))
    ∙ cc (cut_two-crlf (b ∷ line))

length-crlf : (line : Bytes) → ltb (length (line ++ crlf)) 2 ≡ false
length-crlf [] = refl
length-crlf (c ∷ line) =
    let rest : ltb (length (line ++ crlf)) 2 ≡ false = length-crlf line in ground arith

pub read_line-line :
    (line rest : Bytes) → IsLine line → read_line (line ++ (crlf ++ rest)) ≡ ok (line, rest)
unfolding read_line
read_line-line line rest h =
    rw (read_bytes-line line rest h, length-crlf line, cut_two-crlf line) refl

digit_line : (d : ℕ) → is_digit d ≡ true → eqb d 10 ≡ false
digit_line d h = ground arith

IsLine-digits : (ds : Bytes) → All (λ d. is_digit d ≡ true) ds → IsLine ds
IsLine-digits [] h = tt
IsLine-digits (d ∷ ds) h = (digit_line d h.0, IsLine-digits ds h.1)

parse_int-digits :
    (n : ℕ) (ds : Bytes)
    → All (λ d. is_digit d ≡ true) ds
    → 0 < length ds
    → value_from 0 ds ≡ some n
    → n < 2 ^ 63
    → parse_int ds ≡ some (pos n)
unfolding parse_int
parse_int-digits n [] a l v h = absurd (omega arith)
parse_int-digits n (d ∷ ds) a l v h =
    let minus : eqb d b'-' ≡ false = ground (arith, a.0) in
    let plus : eqb d b'+' ≡ false = ground (arith, a.0) in
    rw (minus, plus, v, lt→ltb n (2 ^ 63) h) refl

parse_int-decimal : (n : ℕ) → n < 2 ^ 63 → parse_int (decimal n) ≡ some (pos n)
unfolding parse_int
parse_int-decimal n h =
    parse_int-digits n (decimal n) (decimal_digits n) (length-decimal n) (value_from-decimal n) h

-- An integer reply gives the integer that it says, up to the largest of 64 bits, and leaves the bytes that
-- follow it; an error reply gives its message and never an integer.
pub read_int-reply :
    (n : ℕ) (message rest : Bytes)
    → n < 2 ^ 63
    → IsLine message
    → (read_int (b':' ∷ decimal n ++ (crlf ++ rest)) ≡ ok (pos n, rest))
      × (read_int (b'-' ∷ message ++ (crlf ++ rest)) ≡ err (refused message))
unfolding read_int
read_int-reply n message rest h l = (
  rw
      (
        read_line-line (b':' ∷ decimal n) rest (refl, IsLine-digits (decimal n) (decimal_digits n)),
        parse_int-decimal n h,
      )
      refl,
  rw (read_line-line (b'-' ∷ message) rest (refl, l)) refl,
)
