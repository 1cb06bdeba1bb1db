-- ===== src/Logger.antt =====
-- include/Logger.h and source/Logger.cpp: the messages that the library writes, over the texts that
-- the two standard streams have taken so far.
mod Prefix
mod Tests
use spytester.Base.{
  ℕ, zero, suc, ◌+◌, ◌/◌, ◌%◌, List, [], ◌∷◌, ◌++◌, Option, none, some, ltb, if◌then◌else◌,
}
use spytester.Base.Texts.{Text, drop, find_last_of}

-- `std::to_string`, the last digit first made; a number has fewer digits than the fuel, one more than
-- itself.
unfoldable pub decimal_from : ℕ → ℕ → Text
decimal_from zero n = []
decimal_from (suc fuel) n =
    let rest = decimal_from fuel (n / 10) ++ ((b'0' + n % 10) ∷ []) in
    if ltb n 10 then (b'0' + n) ∷ [] else rest

unfoldable pub to_string : ℕ → Text
unfolding decimal_from
to_string n = decimal_from (suc n) n

-- The path, or what follows its last slash.
abbrev pub file_part : Text → Option ℕ → Text
file_part filepath none = filepath
file_part filepath (some idx) = drop (suc idx) filepath

unfoldable pub prefix : Text → Text → ℕ → Text
unfolding to_string find_last_of
prefix file function line =
    file_part file (find_last_of b'/' file)
    ++ (b':' ∷ (to_string line ++ (b' ' ∷ b'[' ∷ (function ++ (b']' ∷ [])))))

pub record Streams : Type 0 where
  pub out : Text
  pub err : Text

abbrev colon : Text
colon = b':' ∷ b' ' ∷ []

abbrev newline : Text
newline = 10 ∷ []

-- " ERROR: " and " FATAL: ".
abbrev error_mark : Text
error_mark = b' ' ∷ b'E' ∷ b'R' ∷ b'R' ∷ b'O' ∷ b'R' ∷ colon

abbrev fatal_mark : Text
fatal_mark = b' ' ∷ b'F' ∷ b'A' ∷ b'T' ∷ b'A' ∷ b'L' ∷ colon

unfoldable pub info : Text → Text → Text → ℕ → Streams → Streams
unfolding prefix
info msg file function line s = record s {
  out = s.out ++ (prefix file function line ++ (colon ++ (msg ++ newline)));
}

unfoldable pub error : Text → Text → Text → ℕ → Streams → Streams
unfolding prefix
error msg file function line s = record s {
  err = s.err ++ (prefix file function line ++ (error_mark ++ (msg ++ newline)));
}

-- Whether the process goes on.
pub data Going : Type 0 where
  on : Streams → Going
  aborted : Streams → Going

unfoldable pub fatal : Text → Text → Text → ℕ → Streams → Going
unfolding prefix
fatal msg file function line s =
    aborted
      (record s { err = s.err ++ (prefix file function line ++ (fatal_mark ++ (msg ++ newline))) })
