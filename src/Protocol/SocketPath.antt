-- ===== src/Protocol/SocketPath.antt =====
-- `DefaultControlSocketPath` of common/src/protocol.cpp. Text is a list of character codes.
use audio_bat.Base.{ℕ, List, [], ◌∷◌, ◌++◌, Option, none, some}
use audio_bat.Settings.{to_string}

-- "/ramkolfx".
abbrev runtime_suffix : List ℕ
runtime_suffix = 47 ∷ b'r' ∷ b'a' ∷ b'm' ∷ b'k' ∷ b'o' ∷ b'l' ∷ b'f' ∷ b'x' ∷ []

-- "/tmp/ramkolfx-".
abbrev tmp_prefix : List ℕ
tmp_prefix =
    47 ∷ b't' ∷ b'm' ∷ b'p' ∷ 47 ∷ b'r' ∷ b'a' ∷ b'm' ∷ b'k' ∷ b'o' ∷ b'l' ∷ b'f' ∷ b'x' ∷ 45 ∷ []

-- "/control.sock".
abbrev socket_suffix : List ℕ
socket_suffix =
    47 ∷ b'c' ∷ b'o' ∷ b'n' ∷ b't' ∷ b'r' ∷ b'o' ∷ b'l' ∷ 46 ∷ b's' ∷ b'o' ∷ b'c' ∷ b'k' ∷ []

-- `XDG_RUNTIME_DIR` and the user's id; the directory that `mkdir` is called for, and the path.
unfoldable pub default_control_socket_path : Option (List ℕ) → ℕ → List ℕ × List ℕ
unfolding to_string
default_control_socket_path (some runtime_dir) uid =
    let dir = runtime_dir ++ runtime_suffix in (dir, dir ++ socket_suffix)
default_control_socket_path none uid =
    let dir = tmp_prefix ++ to_string uid in (dir, dir ++ socket_suffix)
