-- ===== src/Cli/Stdin.antt =====
-- examples/cli/stdin_command_reader.cpp: `poll` on the descriptor in front of `std::getline` on the
-- stream, which has a buffer of its own. A refill takes all that waits in the descriptor: input
-- that is longer than the buffer at once is not modelled.
use mo_driver_pc_ether_cat.Common.{
  ℕ, zero, suc, ◌≡◌, refl, Bool, true, false, not, ◌||◌, Option, none, some, List, [], ◌∷◌, ◌++◌,
  arith, ◌==◌, length, All, if◌then◌else◌,
}
use mo_driver_pc_ether_cat.Common.Text.{Text, is_empty}
use mo_driver_pc_ether_cat.Cli.{ReadResult}

-- The input: the bytes that wait in the descriptor, those in the buffer of the stream, whether the
-- other side has closed it, and whether the stream has met the end.
pub record Stdin : Type 0 where
  pub pending : Text
  pub buffer : Text
  pub closed : Bool
  pub at_end : Bool

-- What `poll` returns: a signal, another error, or the number of ready descriptors.
pub data Poll : Type 0 where
  interrupted broken counted : Poll

-- The text up to the first newline, and what stands behind it.
unfoldable pub split_line : Text → Option (Text × Text)
split_line [] = none
split_line (c ∷ s) =
    let rest = split_line s in
    if c == 10
    then some ([], s)
    else elim rest [ none ↦ none | some (line, t) ↦ some (c ∷ line, t) ]

-- std::getline: the line, or `none` at the end; the outer `none` says that the call waits for more
-- input.
unfoldable pub getline : Stdin → Option (Option Text × Stdin)
unfolding split_line
getline s =
    let all = s.buffer ++ s.pending in
    let whole : Stdin = record s { buffer = []; pending = []; at_end = true } in
    if s.at_end then some (none, s) else elim (split_line s.buffer) [
      | some (line, rest) ↦ some (some line, record s { buffer = rest })
      | none ↦ (elim (split_line all) [
        | some (line, rest) ↦ some (some line, record s { buffer = rest; pending = [] })
        | none ↦
            (if s.closed then some ((if is_empty all then none else some all), whole) else none)
      ])
    ]

unfoldable pub is_ready : Stdin → Bool
is_ready s = s.closed || not (is_empty s.pending)

-- Read with a timeout of 0.
unfoldable pub read : Poll → Stdin → Option (ReadResult × Text × Stdin)
unfolding getline is_ready
read Poll.interrupted s = some (ReadResult.timeout, [], s)
read Poll.broken s = some (ReadResult.error, [], s)
read Poll.counted s =
    if is_ready s
    then elim (getline s) [
      | none ↦ none
      | some (none, s') ↦ some (ReadResult.eof, [], s')
      | some (some line, s') ↦ some (ReadResult.ok, line, s')
    ]
    else some (ReadResult.timeout, [], s)

-- The commands of repeated calls up to the end of the input; `none` if they do not get there.
unfoldable pub commands : ℕ → Stdin → Option (List Text)
unfolding read
commands zero s = none
commands (suc calls) s = elim (read Poll.counted s) [
  | none ↦ none
  | some (ReadResult.ok, line, s') ↦ (elim (commands calls s') [
    | none ↦ none
    | some lines ↦ some (line ∷ lines)
  ])
  | some (ReadResult.timeout, line, s') ↦ commands calls s'
  | some (ReadResult.eof, line, s') ↦ some []
  | some (ReadResult.error, line, s') ↦ none
]

-- A line without a newline in it, and the text of a list of lines.
abbrev pub IsLine : Text → Type 0
IsLine = All (λ c. (c == 10) ≡ false)

abbrev pub unlines : List Text → Text
unlines [] = []
unlines (line ∷ lines) = line ++ (10 ∷ unlines lines)

split_line-line :
    (line rest : Text) → IsLine line → split_line (line ++ (10 ∷ rest)) ≡ some (line, rest)
unfolding split_line
split_line-line [] rest h = refl
split_line-line (c ∷ line) rest h = ground (arith, split_line-line line rest h.1)

-- Input that has been written and closed, none of which has been read.
abbrev pub piped : Text → Stdin
piped s = record { pending = s; buffer = []; closed = true; at_end = false }

-- The same when it is all in the buffer.
abbrev drained : Text → Stdin
drained s = record { pending = []; buffer = s; closed = true; at_end = false }

drained-line :
    (line rest : Text)
    → IsLine line
    → read Poll.counted (drained (line ++ (10 ∷ rest))) ≡ some (ReadResult.ok, line, drained rest)
unfolding read getline is_ready
drained-line line rest h = rw (split_line-line line rest h) refl

piped-line :
    (line rest : Text)
    → IsLine line
    → read Poll.counted (piped (line ++ (10 ∷ rest))) ≡ some (ReadResult.ok, line, drained rest)
unfolding read getline is_ready split_line
piped-line line rest h = rw (split_line-line line rest h) refl

commands-drained :
    (lines : List Text)
    → All IsLine lines
    → commands (suc (length lines)) (drained (unlines lines)) ≡ some lines
unfolding commands
commands-drained [] h = unfold read in unfold getline in unfold is_ready in refl
commands-drained (line ∷ lines) h =
    ground (arith, drained-line line (unlines lines) h.0, commands-drained lines h.1)

-- Lines that are written before the input is closed are all read, in their order, before the end.
pub commands-piped :
    (lines : List Text)
    → All IsLine lines
    → commands (suc (length lines)) (piped (unlines lines)) ≡ some lines
unfolding commands
commands-piped [] h = unfold read in unfold getline in unfold is_ready in refl
commands-piped (line ∷ lines) h =
    ground (arith, piped-line line (unlines lines) h.0, commands-drained lines h.1)

-- Input that stays open, with the bytes that wait and those in the buffer.
abbrev pub open_input : (pending buffer : Text) → Stdin
open_input pending buffer = record {
  pending = pending;
  buffer = buffer;
  closed = false;
  at_end = false;
}
