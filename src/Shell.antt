-- ===== src/Shell.antt =====
-- src/svc/svc_shell.c and include/qoraal/svc/svc_shell.h: the command shell. A text is a list of
-- characters, up to its zero. The terminal, the messages and the watchdog handler that guards a
-- command are left out.
pub mod Split
pub mod Words
pub mod Script
pub mod Lines
pub mod Errors
pub mod Commands
pub mod Install
pub mod Output
pub mod Pieces
pub mod Scan
mod Tests
use qoraal.Base.{ℕ, Bool, ◌&&◌, ◌||◌, leb, ◌==◌, ℤ, pos, negsuc}

-- `SVC_SHELL_CMD_E_OK` and the others that the shell itself returns
abbrev pub ok : ℤ
ok = pos 0

abbrev pub fail : ℤ
fail = negsuc 0

abbrev pub not_found : ℤ
not_found = negsuc 1

abbrev pub wrong_parms : ℤ
wrong_parms = negsuc 2

abbrev pub not_ready : ℤ
not_ready = negsuc 6

-- `isspace` of the C locale
abbrev pub isspace : ℕ → Bool
isspace c = c == 32 || (leb 9 c && leb c 13)
