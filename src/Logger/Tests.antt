-- ===== src/Logger/Tests.antt =====
-- source/Logger.cpp: a message about line 120 of a file.
use spytester.Base.{◌≡◌, refl, [], ◌∷◌, ◌++◌}
use spytester.Base.Texts.{Text, find_last_of}
use spytester.Logger.{prefix, decimal_from, to_string, error}

abbrev dir : Text
dir = b'/' ∷ b's' ∷ []

abbrev file : Text
file = b'e' ∷ b'.' ∷ b'h' ∷ []

abbrev message : Text
message =
    b'e' ∷ b'.' ∷ b'h' ∷ b':' ∷ b'1' ∷ b'2' ∷ b'0' ∷ b' ' ∷ b'[' ∷ b'f' ∷ b']' ∷ b' ' ∷ b'E' ∷ b'R'
    ∷ b'R' ∷ b'O' ∷ b'R' ∷ b':' ∷ b' ' ∷ b'n' ∷ 10 ∷ []

error_run :
    (error (b'n' ∷ []) (dir ++ b'/' ∷ file) (b'f' ∷ []) 120 (record { out = []; err = [] })).err
    ≡ message
unfolding error prefix to_string decimal_from find_last_of
error_run = refl
