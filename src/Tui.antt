-- ===== src/Tui.antt =====
-- internal/tui: what the screens of the terminal interface decide. Drawing, sizes and the text field's
-- own editing are not modelled.
pub mod Settings
pub mod Activity
