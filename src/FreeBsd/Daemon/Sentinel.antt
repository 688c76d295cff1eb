-- ===== src/FreeBsd/Daemon/Sentinel.antt =====
-- What the state file must hold for the sentinel condition (host/freebsd/v4gwd.c `sentinel_in_file`).
use v4_with_v6_nh.Common.{ℕ, ◌≡◌, refl, ◌++◌, true, some, List, [], ◌∷◌, arith}
use v4_with_v6_nh.Common.Text.{starts_with, fgets}
use v4_with_v6_nh.Common.Text.Laws.{strncmp_eq-line, IsWord}
use v4_with_v6_nh.FreeBsd.Daemon.{sentinel_text, sentinel_in_file}

sentinel_text-IsWord : IsWord sentinel_text
sentinel_text-IsWord = omega arith

-- The file counts exactly when its first ten bytes are "192.0.0.11", whatever follows them.
pub sentinel_in_file_lem :
    (content : List ℕ) → sentinel_in_file (some content) ≡ starts_with sentinel_text content
unfolding sentinel_in_file fgets
sentinel_in_file_lem [] = refl
sentinel_in_file_lem (c ∷ s) =
    strncmp_eq-line sentinel_text (c ∷ s) 63 sentinel_text-IsWord (omega arith)

-- So a file with the address of another gateway, 192.0.0.110 to 192.0.0.119, counts too.
pub sentinel_in_file_longer :
    (rest : List ℕ) → sentinel_in_file (some (sentinel_text ++ rest)) ≡ true
sentinel_in_file_longer rest = sentinel_in_file_lem (sentinel_text ++ rest)
